-- ===== src/Store/Reset/Stuck.antt =====
-- `resetStuckInSent`: afterwards no message is in a sent queue.
use skewer.Prelude.{ℕ, some, List, [], ◌∷◌, ◌++◌, ◌≡◌, arith, Bytes, elem, is_some, length, take}
use skewer.Prelude.Outcome.{Outcome, ok, err}
use skewer.Conf.Destination.{Destination, destinations}
use skewer.Store.Badger.{Error, Badger, atomically}
use skewer.Store.Badger.Triple.{
  Contents, Triple, Triple-pure, Triple-bind, Triple-weaken, Triple-assume, Holds, atomically-Helps,
}
use skewer.Store.Badger.Ends.{Spends, Spends-pure, Spends-bind, atomically-Shortens}
use skewer.Store.Partition.{true_bytes}
use skewer.Store.Partition.Keys.{ready, sent, failed, perm_errors, queue, prefix}
use skewer.Store.Partition.Effects.{
  put_all, remove_all, Triple-to, delete_many_lem, set-Spends, delete_many-Spends,
}
use skewer.Store.Partition.Listing.{list_keys_lem, list_keys-Spends}
use skewer.Store.Spec.{
  Where, absent, waiting, Tracker, send_all, Represents, AllIn, Represents-move, Represents-eq,
  tracker-same,
}
use skewer.Store.State.{Store, settle}
use skewer.Store.Landed.{IsAt, Represents-Holds, settle_reaches}
use skewer.Store.Acks.Effects.{set_lem}
use skewer.Store.Reset.Each.{in_turn, at_dest, in_turn_all, Ended, Reaches, for_each_lem}
use skewer.Store.Reset.{set_each, reset_helper, reset_stuck_in_sent}

abbrev pub unstick : Where → Where
unstick absent = absent
unstick (waiting ready) = waiting ready
unstick (waiting sent) = waiting ready
unstick (waiting failed) = waiting failed
unstick (waiting perm_errors) = waiting perm_errors

abbrev unstick_at : Destination → Tracker → Tracker
unstick_at = at_dest unstick

unstick_idem : (x : Where) → unstick (unstick x) ≡ unstick x
unstick_idem x = ground arith

unstick-send :
    (o : Contents) (w : Tracker) (d : Destination) (us : List Bytes)
    → Represents o w
    → ((u : Bytes) → elem u us ≡ is_some (o (prefix (queue sent d) ++ u)))
    → (e : Destination) (v : Bytes) → send_all w d us (waiting ready) e v ≡ unstick_at d w e v
unstick-send o w d us rep listed e v = ground (arith, listed v, rep d v sent, tracker-same w d e v)

listed-AllIn :
    (o : Contents) (w : Tracker) (d : Destination) (us : List Bytes)
    → Represents o w
    → ((u : Bytes) → elem u us ≡ is_some (o (prefix (queue sent d) ++ u)))
    → AllIn w d us sent ready
listed-AllIn o w d us rep listed v h = ground (arith, listed v, rep d v sent)

module _ {D : Type 0} ⦃b : Badger D⦄ where
  set_each_lem :
      (us : List Bytes) (o : Contents) (p v : Bytes)
      → Triple {D = D} (Holds o) (set_each p us v) (λ _. Holds (put_all o p us v))
  unfolding set_each
  set_each_lem [] o p v = Triple-pure (Holds o) tt
  set_each_lem (u ∷ us) o p v =
      Triple-bind _ _ (set_lem o p u v)
        (λ _. Triple-to _ (λ j. ground arith) (set_each_lem us (put_all o p (u ∷ []) v) p v))

  set_each-Spends : (us : List Bytes) (p v : Bytes) → Spends {D = D} (set_each p us v)
  unfolding set_each
  set_each-Spends [] p v = Spends-pure tt
  set_each-Spends (u ∷ us) p v = Spends-bind _ _ (set-Spends p u v) (λ _. set_each-Spends us p v)

  reset_helper-Spends : (d : Destination) → Spends {D = D} (reset_helper d)
  unfolding reset_helper
  reset_helper-Spends d = Spends-bind _ _ (list_keys-Spends (prefix (queue sent d))) (λ us.
      Spends-bind _ _ (delete_many-Spends (prefix (queue sent d)) us) (λ _.
        Spends-bind _ _ (set_each-Spends us (prefix (queue ready d)) true_bytes)
          (λ _. Spends-pure (length us))))

  reset_helper_lem :
      (o : Contents) (w : Tracker) (d : Destination)
      → Represents o w
      → Triple {D = D} (Holds o) (reset_helper d) (λ _ x. Represents (b.get x) (unstick_at d w))
  unfolding reset_helper
  reset_helper_lem o w d rep =
      let p = prefix (queue sent d) in
      let q = prefix (queue ready d) in
      Triple-bind _ _ (list_keys_lem o p) (λ us. Triple-assume (λ listed.
        let o' : Contents = put_all (remove_all o p us) q us true_bytes in
        Triple-bind _ _ (delete_many_lem o p us) (λ _.
          Triple-bind _ _ (set_each_lem us (remove_all o p us) q true_bytes) (λ _.
            Triple-weaken (Triple-pure _ (length us)) (λ _ x h.
              Represents-Holds o' (unstick_at d w) x h (
                Represents-eq o' (send_all w d us (waiting ready)) (unstick_at d w)
                  (unstick-send o w d us rep listed)
                  (Represents-move o w rep sent ready d us true_bytes
                    (listed-AllIn o w d us rep listed))))))))

module _ {D T : Type 0} ⦃b : Badger D⦄ where
  reset-Reaches :
      Reaches {D = D} {T = T} unstick_at (λ dest. settle (atomically (reset_helper dest)))
  reset-Reaches d s w rep =
      settle_reaches (unstick_at d w) (atomically (reset_helper d)) s
        (atomically-Shortens (reset_helper d) (reset_helper-Spends d))
        (atomically-Helps (reset_helper d) (reset_helper_lem (b.get s.db) w d rep))

  -- What `resetStuckInSent` leaves of a store in state `w`.
  abbrev pub Unstuck : Store D T → Tracker → Outcome Error (Unit {0}) × Store D T → Type 0
  Unstuck s w (ok u, s') =
      IsAt s' (λ e v. unstick (w e v)) × (s' ≡ record s { db = s'.db; plan = s'.plan })
  Unstuck s w (err e, s') =
      (k : ℕ) × IsAt s' (in_turn unstick_at (take k destinations) w)
      × (s' ≡ record s { db = s'.db; plan = s'.plan })

  Ended-Unstuck :
      (s : Store D T) (w : Tracker) (r : Outcome Error (Unit {0}) × Store D T)
      → Ended unstick_at destinations s w r
      → Unstuck s w r
  Ended-Unstuck s w (ok u, s') h = (
    Represents-eq (b.get s'.db) (in_turn unstick_at destinations w) (λ e v. unstick (w e v))
        (in_turn_all unstick unstick_idem w) h.0,
    h.1,
  )
  Ended-Unstuck s w (err e, s') h = h

  -- `resetStuckInSent` ends. On success every message that was in a sent queue is in the ready
  -- queue of the same destination, every other is where it was, and no other field has changed. On
  -- an error that is so of the first destinations, and nothing has changed for the others.
  pub reset_stuck_refines :
      (s : Store D T) (w : Tracker)
      → IsAt s w
      → (r : Outcome Error (Unit {0}) × Store D T) × (reset_stuck_in_sent s ≡ some r)
        × Unstuck s w r
  unfolding reset_stuck_in_sent
  reset_stuck_refines s w rep =
      let (r, ends, h) =
        for_each_lem unstick_at (λ dest. settle (atomically (reset_helper dest))) reset-Reaches
          destinations s w rep in
      (r, ends, Ended-Unstuck s w r h)
