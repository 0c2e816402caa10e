-- ===== src/Store/Retrieve/Refine.antt =====
-- `retrieve` against the specification: what it returns is what it moved to the sent queue.
use mathlib.Core.Path.{subst}
use skewer.Prelude.{
  ℕ, zero, suc, ◌+◌, ◌≤◌, true, ◌||◌, none, some, List, [], ◌∷◌, ◌++◌, ◌≡◌, ◌≢◌, refl, sym, ap, ◌∙◌,
  arith, Bytes, elem, length, length-take, take, if◌then◌else◌,
}
use skewer.Prelude.Outcome.{Outcome, ok, err}
use skewer.Conf.Destination.{Destination}
use skewer.Store.Badger.{Error, Badger, Plan, answer, Txn}
use skewer.Store.Badger.Triple.{Contents, Holds, After, After-weaken, committed-After}
use skewer.Store.Badger.Ends.{Shortens, committed-at}
use skewer.Store.Partition.{strip}
use skewer.Store.Partition.Keys.{ready, queue, messages, prefix}
use skewer.Store.Partition.Listing.{elem-scan_keys}
use skewer.Store.Spec.{waiting, Tracker, Represents, ready-is}
use skewer.Store.State.{Store, Settled, settle_lem}
use skewer.Store.Landed.{IsAt, not_conflict, Represents-Holds}
use skewer.Store.Retrieve.{
  Formats, Fetched, fetch_all, write_fetched, try_retrieve, messages_only, retrieve,
}
use skewer.Store.Retrieve.Fetching.{
  Decoded, view-fetch_all, plan-fetch_all, fetch_all-sorted, fetch_all-Decoded, length-fetch_all,
}
use skewer.Store.Retrieve.Contents.{
  retrieved_contents, retrieved_spec, Represents-retrieved, retrieved-message, write_fetched_lem,
  write_fetched-Spends,
}

elem-take : (n : ℕ) (us : List Bytes) (v : Bytes) → elem v (take n us) ≡ true → elem v us ≡ true
elem-take zero us v h = cc
elem-take (suc n) [] v h = cc
elem-take (suc n) (u ∷ us) v h = ground (arith, elem-take n us v)

module _ {D Msg : Type 0} ⦃b : Badger D⦄ (f : Formats Msg) where
  -- A batch taken out of the ready queue of `d`, from contents `o` in state `w`, has left the
  -- database `x`.
  pub record Retrieved (batch_size : ℕ) (d : Destination) (o : Contents) (w : Tracker)
      (uids invalid : List Bytes) (msgs : List Msg) (x : D) : Type 0 where
    pub reaches : Represents (b.get x) (retrieved_spec w d uids invalid)
    pub content :
        (v : Bytes)
        → b.get x (prefix messages ++ v)
          ≡ (if elem v invalid then none else o (prefix messages ++ v))
    pub decoded : Decoded f o uids msgs
    pub from_ready : (v : Bytes) → (elem v uids || elem v invalid) ≡ true → w d v ≡ waiting ready
    pub bounded : length uids + length invalid ≤ batch_size

  try_retrieve-Retrieved :
      (n : ℕ) (d : Destination) (o : Contents) (w : Tracker) (x : D) (plan : Plan)
      → Represents o w
      → Holds o x
      → After (λ r y. Retrieved n d o w r.uids r.invalid r.msgs y) x (try_retrieve f n d x plan)
  unfolding try_retrieve
  try_retrieve-Retrieved n d o w x plan rep h =
      let p = prefix (queue ready d) in
      let t : Txn D = record { view = x; plan = plan } in
      let us = take n (strip p (b.scan x p)) in
      let r = (fetch_all f us t).0 in
      let t' = (fetch_all f us t).1 in
      let w' = write_fetched d r t' in
      let from : (v : Bytes) → (elem v r.uids || elem v r.invalid) ≡ true → w d v ≡ waiting ready =
        λ v e. ready-is (w d v) (
          sym (elem-scan_keys o p v x h ∙ rep d v ready)
          ∙ elem-take n (strip p (b.scan x p)) v (fetch_all-sorted f us t v ∙ e)) in
      After-weaken {Q = λ a y. Holds (retrieved_contents o d r.uids r.invalid) y × (a ≡ r)}
        {Q' = λ a y. Retrieved n d o w a.uids a.invalid a.msgs y} x _
        (committed-After _ x w' (answer w'.1.plan)
          ((write_fetched_lem o d r).at t' (subst (Holds o) (sym (view-fetch_all f us t)) h)))
        (λ a y k.
          subst (λ a. Retrieved n d o w a.uids a.invalid a.msgs y) (sym k.1)
            (record {
              reaches =
                  Represents-Holds (retrieved_contents o d r.uids r.invalid) _ y k.0 (
                    Represents-retrieved o w d r.uids r.invalid rep (λ v e. from v (ground arith)));
              content = λ v. k.0 (prefix messages ++ v) ∙ retrieved-message o d r.uids r.invalid v;
              decoded = fetch_all-Decoded f us o t h;
              from_ready = from;
              bounded =
                  omega (arith, length-fetch_all f us t, length-take n (strip p (b.scan x p)));
            }))

  try_retrieve-Shortens : (n : ℕ) (d : Destination) → Shortens {D = D} (try_retrieve f n d)
  unfolding try_retrieve
  try_retrieve-Shortens n d = record {
    at = λ x plan c.
        let p = prefix (queue ready d) in
        let t : Txn D = record { view = x; plan = plan } in
        let us = take n (strip p (b.scan x p)) in
        let r = (fetch_all f us t).0 in
        let t' = (fetch_all f us t).1 in
        omega (
          arith,
          committed-at (length t'.plan) x _ _ _ ((write_fetched-Spends d r).at t') c,
          plan-fetch_all f us t,
        );
  }

module _ {D T Msg : Type 0} ⦃b : Badger D⦄ (f : Formats Msg) where
  -- How `retrieve` leaves the store.
  abbrev pub RetrieveEnds :
      Destination → Store D T → Tracker → Outcome Error (List Msg) × Store D T → Type 0
  RetrieveEnds d s w (ok msgs, s') =
      (uids : List Bytes) × (invalid : List Bytes) × Retrieved f s.batch_size d (b.get s.db) w uids
        invalid msgs s'.db
      × (s' ≡ record s { db = s'.db; plan = s'.plan })
  RetrieveEnds d s w (err e, s') = (s' ≡ record s { plan = s'.plan }) × (e ≢ Error.conflict)

  Settled-Ends :
      (d : Destination) (s : Store D T) (w : Tracker) (r : Outcome Error (Fetched Msg) × Store D T)
      → Settled (λ a y. Retrieved f s.batch_size d (b.get s.db) w a.uids a.invalid a.msgs y) s r
      → RetrieveEnds d s w (messages_only r)
  Settled-Ends d s w (ok a, s') h = (a.uids, a.invalid, h.after, h.rest)
  Settled-Ends d s w (err e, s') h = (
    h.rest ∙ ap (λ x. record s { db = x; plan = s'.plan }) h.after,
    λ c. not_conflict e h.no_conflict c,
  )

  -- `retrieve` for a destination ends. On success at most `BatchSize` messages have left its ready
  -- queue, some to the sent queue and some, the invalid ones, out of the store with their contents;
  -- all else is where it was and no other content has changed; and the messages returned are, in
  -- order, what the stored contents of those now in the sent queue stand for. An error is no
  -- conflict, and nothing has changed.
  pub retrieve_refines :
      (d : Destination) (s : Store D T) (w : Tracker)
      → IsAt s w
      → (r : Outcome Error (List Msg) × Store D T) × (retrieve f d s ≡ some r)
        × RetrieveEnds d s w r
  unfolding retrieve
  retrieve_refines d s w rep =
      let (r, ends, h) =
        settle_lem (try_retrieve f s.batch_size d) s (try_retrieve-Shortens f s.batch_size d)
          (record {
            at = λ y plan k. try_retrieve-Retrieved f s.batch_size d (b.get s.db) w y plan rep k;
          })
          (λ j. refl) in
      (messages_only r, rw ends, Settled-Ends d s w r h)
