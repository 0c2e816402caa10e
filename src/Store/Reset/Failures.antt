-- ===== src/Store/Reset/Failures.antt =====
-- `resetFailuresByDest`: failed messages of a minute ago go back to the ready queue.
use mathlib.Core.Path.{subst}
use skewer.Prelude.{
  ℕ, true, some, List, [], ◌∷◌, ◌++◌, ◌≡◌, ◌≢◌, refl, ap, ◌∙◌, sym, arith, Bytes, elem, length,
}
use skewer.Prelude.Int.{ℤ}
use skewer.Prelude.Outcome.{Outcome, ok, err}
use skewer.Conf.Destination.{Destination}
use skewer.Store.Badger.{Error, Badger, Plan, Txn}
use skewer.Store.Badger.Triple.{
  After-weaken, Contents, Triple, Triple-pure, Triple-wrap, Triple-bind, Holds, Helps, After,
  committed-After,
}
use skewer.Store.Partition.Listing.{elem-scan_keys}
use skewer.Store.Landed.{IsAt, not_conflict, Represents-Holds}
use skewer.Store.Partition.{true_bytes, strip}
use skewer.Store.Partition.Keys.{ready, failed, queue, prefix}
use skewer.Store.Partition.Effects.{put_all, remove_all, add_many_same_lem, delete_many_lem}
use skewer.Store.Spec.{
  waiting, Tracker, in_queue, send_all, take_all, Represents, tracker-same, covers-queue,
}
use skewer.Store.Reset.{
  sort_all, delete_invalid, move_expired, write_sorted, commit_sorted, do_reset,
}
use skewer.Store.Reset.Sorting.{Judged, sort_all-Judged, view-sort_all, in_failed}
use skewer.Store.Reset.Rounds.{do_reset-Shortens}
use skewer.Store.State.{Store, settle, Settled, settle_lem}

-- Invalid entries leave the failed queue, expired ones go to the ready queue.
abbrev pub sorted_spec : Tracker → Destination → List Bytes → List Bytes → Tracker
sorted_spec w d expired invalid = send_all (take_all w d invalid failed) d expired (waiting ready)

abbrev sorted_contents : Contents → Destination → List Bytes → List Bytes → Contents
sorted_contents o d expired invalid =
    remove_all
      (put_all (remove_all o (prefix (queue failed d)) invalid) (prefix (queue ready d)) expired
        true_bytes)
      (prefix (queue failed d)) expired

Represents-sorted :
    (o : Contents) (w : Tracker) (d : Destination) (expired invalid : List Bytes)
    → Represents o w
    → ((v : Bytes) → elem v expired ≡ true → w d v ≡ waiting failed)
    → Represents (sorted_contents o d expired invalid) (sorted_spec w d expired invalid)
Represents-sorted o w d expired invalid rep from e v s = ground (
  arith,
  rep e v s,
  from v,
  tracker-same w d e v,
  covers-queue failed s d e invalid v,
  covers-queue failed s d e expired v,
  covers-queue ready s d e expired v,
)

module _ {D : Type 0} ⦃b : Badger D⦄ where
  delete_invalid_lem :
      (o : Contents) (d : Destination) (invalid : List Bytes)
      → Triple {D = D}
          (Holds o)
          (delete_invalid d invalid)
          (λ _. Holds (remove_all o (prefix (queue failed d)) invalid))
  unfolding delete_invalid
  delete_invalid_lem o d [] = Triple-pure (Holds o) tt
  delete_invalid_lem o d (u ∷ us) =
      Triple-wrap (delete_many_lem o (prefix (queue failed d)) (u ∷ us))

  move_expired_lem :
      (o : Contents) (d : Destination) (expired : List Bytes)
      → Triple {D = D} (Holds o) (move_expired d expired) (λ _. Holds (
          remove_all
            (put_all o (prefix (queue ready d)) expired true_bytes)
            (prefix (queue failed d))
            expired))
  unfolding move_expired
  move_expired_lem o d [] = Triple-pure (Holds o) tt
  move_expired_lem o d (u ∷ us) =
      Triple-bind _ _
        (Triple-wrap (add_many_same_lem o (prefix (queue ready d)) (u ∷ us) true_bytes))
        (λ _. Triple-wrap (delete_many_lem _ (prefix (queue failed d)) (u ∷ us)))

  write_sorted_lem :
      (o : Contents) (d : Destination) (expired invalid : List Bytes)
      → Triple {D = D}
          (Holds o)
          (write_sorted d expired invalid)
          (λ _. Holds (sorted_contents o d expired invalid))
  unfolding write_sorted
  write_sorted_lem o d expired invalid = Triple-bind _ _ (delete_invalid_lem o d invalid) (λ _.
      Triple-bind _ _ (move_expired_lem _ d expired)
        (λ _. Triple-pure _ (length expired, length invalid)))

  commit_sorted-After :
      (o : Contents) (d : Destination) (x : D) (expired invalid : List Bytes) (t : Txn D)
      → Holds o x
      → Holds o t.view
      → After
          (λ _. Holds (sorted_contents o d expired invalid))
          x
          (commit_sorted d x expired invalid t)
  unfolding commit_sorted
  commit_sorted-After o d x [] [] t h k = h
  commit_sorted-After o d x [] (u ∷ us) t h k =
      committed-After _ x (write_sorted d [] (u ∷ us) t) _
        ((write_sorted_lem o d [] (u ∷ us)).at t k)
  commit_sorted-After o d x (u ∷ us) invalid t h k =
      committed-After _ x (write_sorted d (u ∷ us) invalid t) _
        ((write_sorted_lem o d (u ∷ us) invalid).at t k)

module _ {D : Type 0} ⦃b : Badger D⦄ where
  -- A round of `doReset` for destination `d`, from contents `o` in state `w`: what the database then
  -- holds, and why each failed message went where it did.
  pub record Retried (now : ℤ) (d : Destination) (o : Contents) (w : Tracker) (x : D) : Type 0 where
    pub expired : List Bytes
    pub invalid : List Bytes
    pub reaches : Represents (b.get x) (sorted_spec w d expired invalid)
    pub judged :
        (v : Bytes)
        → Judged now
            (o (prefix (queue failed d) ++ v))
            (in_queue (w d v) failed)
            (elem v expired)
            (elem v invalid)

  do_reset-Retried :
      (now : ℤ) (d : Destination) (o : Contents) (w : Tracker) (x : D) (plan : Plan)
      → Represents o w
      → Holds o x
      → After (λ _ y. Retried now d o w y) x (do_reset now d x plan)
  unfolding do_reset
  do_reset-Retried now d o w x plan rep h =
      let p = prefix (queue failed d) in
      let t : Txn D = record { view = x; plan = plan } in
      let us = strip p (b.scan x p) in
      let s = (sort_all now p us t).0 in
      let t' = (sort_all now p us t).1 in
      let listed : (v : Bytes) → elem v us ≡ in_queue (w d v) failed =
        λ v. elem-scan_keys o p v x h ∙ rep d v failed in
      let judge : (v : Bytes)
          → Judged now (o (p ++ v)) (in_queue (w d v) failed) (elem v s.expired)
              (elem v s.invalid) =
        λ v.
          subst (λ l. Judged now (o (p ++ v)) l (elem v s.expired) (elem v s.invalid)) (listed v)
            (sort_all-Judged now o p us t v h) in
      After-weaken {A = ℕ × ℕ} {Q = λ _. Holds (sorted_contents o d s.expired s.invalid)}
        {Q' = λ _ y. Retried now d o w y} x _
        (commit_sorted-After o d x s.expired s.invalid t' h
          (subst (Holds o) (sym (view-sort_all now p us t)) h))
        (λ _ y k. record {
          expired = s.expired;
          invalid = s.invalid;
          reaches =
              Represents-Holds (sorted_contents o d s.expired s.invalid)
                (sorted_spec w d s.expired s.invalid) y k
                (Represents-sorted o w d s.expired s.invalid rep
                  (λ v e. in_failed (w d v) ((judge v).expired_due e).0));
          judged = judge;
        })

  do_reset-Helps :
      (now : ℤ) (d : Destination) (w : Tracker) (x : D)
      → Represents (b.get x) w
      → Helps (Holds (b.get x)) (do_reset now d) (λ _ y. Retried now d (b.get x) w y)
  do_reset-Helps now d w x rep = record {
    at = λ y plan h. do_reset-Retried now d (b.get x) w y plan rep h;
  }

module _ {D T : Type 0} ⦃b : Badger D⦄ where
  -- How `doReset` for destination `d`, tried again while it ends in a conflict, leaves the store.
  abbrev pub RetriedAt :
      ℤ → Destination → Store D T → Tracker → Outcome Error (ℕ × ℕ) × Store D T → Type 0
  RetriedAt now d s w (ok n, s') =
      Retried now d (b.get s.db) w s'.db × (s' ≡ record s { db = s'.db; plan = s'.plan })
  RetriedAt now d s w (err e, s') = (s' ≡ record s { plan = s'.plan }) × (e ≢ Error.conflict)

  Settled-RetriedAt :
      (now : ℤ) (d : Destination) (w : Tracker) (s : Store D T)
      (r : Outcome Error (ℕ × ℕ) × Store D T)
      → Settled (λ _ y. Retried now d (b.get s.db) w y) s r
      → RetriedAt now d s w r
  Settled-RetriedAt now d w s (ok n, s') h = (h.after, h.rest)
  Settled-RetriedAt now d w s (err e, s') h = (
    h.rest ∙ ap (λ x. record s { db = x; plan = s'.plan }) h.after,
    λ c. not_conflict e h.no_conflict c,
  )

  -- `doReset` for a destination, tried again while it ends in a conflict, ends. On success the
  -- expired messages have gone from the failed to the ready queue and the invalid ones have left the
  -- store; each expired message was in the failed queue with a stored time of a minute ago or more,
  -- each invalid one was in the failed queue, and one that has stayed in the failed queue has a
  -- stored time of less than a minute ago; all others are where they were. On an error nothing has
  -- changed.
  pub do_reset_refines :
      (now : ℤ) (d : Destination) (s : Store D T) (w : Tracker)
      → IsAt s w
      → (r : Outcome Error (ℕ × ℕ) × Store D T) × (settle (do_reset now d) s ≡ some r)
        × RetriedAt now d s w r
  do_reset_refines now d s w rep =
      let (r, ends, h) =
        settle_lem (do_reset now d) s (do_reset-Shortens now d) (do_reset-Helps now d w s.db rep)
          (λ j. refl) in
      (r, ends, Settled-RetriedAt now d w s r h)
