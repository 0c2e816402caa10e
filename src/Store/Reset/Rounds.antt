-- ===== src/Store/Reset/Rounds.antt =====
-- The transactions of `resetFailuresByDest` that end in a conflict have used up an answer of badger.
use skewer.Prelude.{◌≤◌, ◌<◌, true, List, [], ◌∷◌, ◌++◌, ◌≡◌, arith, Bytes, length}
use skewer.Prelude.Int.{ℤ}
use skewer.Conf.Destination.{Destination}
use skewer.Store.Badger.{Badger, Txn, txn_get, conflicts}
use skewer.Store.Badger.Ends.{
  length-later, Spends, Spends-pure, Spends-wrap, Spends-bind, Shortens, committed-at,
}
use skewer.Store.Partition.{true_bytes, strip}
use skewer.Store.Partition.Keys.{ready, failed, queue, prefix}
use skewer.Store.Partition.Effects.{add_many_same-Spends, delete_many-Spends}
use skewer.Store.Reset.{
  sort_all, delete_invalid, move_expired, write_sorted, commit_sorted, do_reset,
}

module _ {D : Type 0} ⦃b : Badger D⦄ where
  delete_invalid-Spends : (d : Destination) (us : List Bytes) → Spends {D = D} (delete_invalid d us)
  unfolding delete_invalid
  delete_invalid-Spends d [] = Spends-pure tt
  delete_invalid-Spends d (u ∷ us) =
      Spends-wrap _ (delete_many-Spends (prefix (queue failed d)) (u ∷ us))

  move_expired-Spends : (d : Destination) (us : List Bytes) → Spends {D = D} (move_expired d us)
  unfolding move_expired
  move_expired-Spends d [] = Spends-pure tt
  move_expired-Spends d (u ∷ us) =
      Spends-bind _ _
        (Spends-wrap _ (add_many_same-Spends (prefix (queue ready d)) (u ∷ us) true_bytes))
        (λ _. Spends-wrap _ (delete_many-Spends (prefix (queue failed d)) (u ∷ us)))

  write_sorted-Spends :
      (d : Destination) (expired invalid : List Bytes)
      → Spends {D = D} (write_sorted d expired invalid)
  unfolding write_sorted
  write_sorted-Spends d expired invalid =
      Spends-bind _ _ (delete_invalid-Spends d invalid)
        (λ _. Spends-bind _ _ (move_expired-Spends d expired) (λ _. Spends-pure _))

  commit_sorted-shorter :
      (d : Destination) (x : D) (expired invalid : List Bytes) (t : Txn D)
      → conflicts (commit_sorted d x expired invalid t).0 ≡ true
      → length (commit_sorted d x expired invalid t).2 < length t.plan
  unfolding commit_sorted
  commit_sorted-shorter d x [] [] t c = cc
  commit_sorted-shorter d x [] (u ∷ us) t c =
      committed-at (length t.plan) x _ _ _ ((write_sorted-Spends d [] (u ∷ us)).at t) c
  commit_sorted-shorter d x (u ∷ us) invalid t c =
      committed-at (length t.plan) x _ _ _ ((write_sorted-Spends d (u ∷ us) invalid).at t) c

  plan-sort_all :
      (now : ℤ) (p : Bytes) (us : List Bytes) (t : Txn D)
      → length (sort_all now p us t).1.plan ≤ length t.plan
  unfolding sort_all txn_get
  plan-sort_all now p [] t = omega arith
  plan-sort_all now p (u ∷ us) t =
      omega (arith, plan-sort_all now p us (txn_get (p ++ u) t).1, length-later t.plan)

  pub do_reset-Shortens : (now : ℤ) (d : Destination) → Shortens {D = D} (do_reset now d)
  unfolding do_reset
  do_reset-Shortens now d = record {
    at = λ x plan c.
        let p = prefix (queue failed d) in
        let t : Txn D = record { view = x; plan = plan } in
        let us = strip p (b.scan x p) in
        omega (
          arith,
          commit_sorted-shorter d x (sort_all now p us t).0.expired (sort_all now p us t).0.invalid
              (sort_all now p us t).1 c,
          plan-sort_all now p us t,
        );
  }
