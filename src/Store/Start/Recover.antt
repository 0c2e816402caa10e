-- ===== src/Store/Start/Recover.antt =====
-- After a start no message is in a sent queue, and the counts are right.
use skewer.Prelude.{
  Bool, true, false, Option, none, some, ◌++◌, ◌≡◌, refl, ◌∙◌, ap, arith, Bytes, is_some,
  if◌then◌else◌,
}
use skewer.Prelude.Int.{ℤ}
use skewer.Prelude.Outcome.{Outcome, ok, err}
use skewer.Conf.Destination.{Destination, destinations}
use skewer.Store.Badger.{Error, Badger}
use skewer.Store.Partition.Keys.{sent, messages, prefix}
use skewer.Store.RefCount.{Trie}
use skewer.Store.Spec.{Where, absent, Tracker, in_queue}
use skewer.Store.State.{Store}
use skewer.Store.Landed.{IsAt}
use skewer.Store.Counts.{Matches}
use skewer.Store.Reset.Stuck.{reset_stuck_refines}
use skewer.Store.Prune.Walk.{named_in}
use skewer.Store.Prune.Refine.{PruneEnds, prune_orphaned_refines}
use skewer.Store.Reset.Each.{rebase}
use skewer.Store.Start.{Logged, init_gauge, start}
use skewer.Store.Start.Gauge.{Ulids, NoneSent, init_gauge-Matches}
use skewer.Store.Start.Pushes.{
  pushed, Pushed, Pushed-trans, IsAt-plan, plan_only, Unstuck-PushedTo, reset_failures-PushedTo,
}

pushed-calm : (x y : Where) → pushed x y ≡ true → in_queue x sent ≡ false → in_queue y sent ≡ false
pushed-calm x y h k = ground arith

pushed-absent : (x y : Where) → pushed x y ≡ true → x ≡ absent → y ≡ absent
pushed-absent x y h k = ground arith

named-left :
    (x o : Option Bytes) (n : Bool) → x ≡ (if n then o else none) → is_some x ≡ true → n ≡ true
named-left x o true h k = refl
named-left x o false h k = cc

module _ {D T : Type 0} ⦃b : Badger D⦄ ⦃i : Trie T⦄ where
  -- The contents that are left are those of messages that some queue but the sent ones names.
  abbrev pub Named : Store D T → Tracker → Type 0
  Named s w =
      (v : Bytes)
      → is_some (b.get s.db (prefix messages ++ v)) ≡ true
      → named_in destinations w v ≡ true

  PruneEnds-same :
      (s : Store D T) (w : Tracker) (r : Outcome Error (Unit {0}) × Store D T)
      → IsAt s w
      → PruneEnds s w r
      → IsAt r.1 w × (r.1 ≡ record s { db = r.1.db; plan = r.1.plan }) × (r.0 ≡ ok tt → Named r.1 w)
  PruneEnds-same s w (ok u, s') rep (h, same) =
      (h.state, same, λ good v there. named-left _ _ _ (h.content v) there)
  PruneEnds-same s w (err e, s') rep same =
      (IsAt-plan s s' w rep same, plan_only s s' same, λ (bad : err e ≡ ok tt). absurd cc)

  -- The store after a start, from a state that `w` represents.
  pub record Recovered (s : Store D T) (w : Tracker) (r : Logged × Store D T) : Type 0 where
    pub place : Tracker
    pub at : IsAt r.1 place
    pub push : Pushed w place
    pub rest : r.1 ≡ record s { db = r.1.db; plan = r.1.plan; counts = r.1.counts }
    pub calm : r.0.stuck ≡ ok tt → NoneSent place
    pub counted : r.0.stuck ≡ ok tt → Matches place r.1.counts
    pub named : r.0.pruning ≡ ok tt → Named r.1 place

  -- A start ends, whatever calls of the database fail. A message is then where it was, in the ready
  -- queue after a sent or a failed queue, or gone from a failed queue, and the database and the
  -- counts alone have changed. Where no error was logged for the sent queues, no message is in one,
  -- and the count of each message is the number of destinations that have it in a queue; where none
  -- was logged for the orphans, each content that is left is named by a ready, failed or
  -- permanent-errors queue. The store has 16-byte ULIDs and starts without counts.
  pub start_recovers :
      (now : Destination → ℤ) (s : Store D T) (w : Tracker)
      → IsAt s w
      → Ulids w
      → ((u : Bytes) → i.lookup s.counts u ≡ none)
      → (r : Logged × Store D T) × (start now s ≡ some r) × Recovered s w r
  unfolding start init_gauge
  start_recovers now s w rep ulids empty =
      let (r1, e1, h1) = reset_stuck_refines s w rep in
      let (p1, calm) = Unstuck-PushedTo s w r1 h1 in
      let (r2, e2, p2) = reset_failures-PushedTo now r1.1 p1.0 p1.1 in
      let (r3, e3, h3) = prune_orphaned_refines r2.1 p2.0 p2.1 in
      let (at, same, named) = PruneEnds-same r2.1 p2.0 r3 p2.1 h3 in
      let push = Pushed-trans w p1.0 p2.0 p1.2 p2.2 in
      let total : r3.1 ≡ record s { db = r3.1.db; plan = r3.1.plan } =
        rebase s (rebase s p1.3 p2.3) same in
      let later = λ (good : r1.0 ≡ ok tt) (e : Destination) (v : Bytes).
        pushed-calm (p1.0 e v) (p2.0 e v) (p2.2 e v) (calm good e v) in
      (
        (record { stuck = r1.0; failures = r2.0; pruning = r3.0 }, init_gauge r3.1),
        rw (e1, e2, e3) refl,
        record {
          place = p2.0;
          at = at;
          push = push;
          rest = ap (λ (x : Store D T). record x { counts = (init_gauge r3.1).counts }) total;
          calm = later;
          counted = λ good.
              init_gauge-Matches r3.1 p2.0 at
                (λ e v n. pushed-absent (w e v) (p2.0 e v) (push e v) (ulids e v n)) (later good)
                (λ u. ap (λ (x : Store D T). i.lookup x.counts u) total ∙ empty u);
          named = named;
        },
      )
