-- ===== src/Store/Prune/Refine.antt =====
-- `pruneOrphaned` deletes exactly the contents that no ready, failed or permanent-errors queue names.
use skewer.Prelude.{
  ℕ, Bool, ◌&&◌, not, Option, none, some, List, ◌++◌, ◌≡◌, refl, ap, ◌∙◌, arith, Bytes, elem,
  is_some, length, if◌then◌else◌,
}
use skewer.Prelude.Outcome.{Outcome, ok, err}
use skewer.Conf.Destination.{destinations}
use skewer.Store.Badger.{Error, Badger, atomically}
use skewer.Store.Badger.Triple.{
  Contents, Triple, Triple-pure, Triple-bind, Triple-assume, Triple-weaken, Holds, atomically-Helps,
}
use skewer.Store.Badger.Ends.{Spends, Spends-pure, Spends-bind, atomically-Shortens}
use skewer.Store.Partition.Keys.{messages, prefix}
use skewer.Store.Partition.Effects.{remove_all}
use skewer.Store.Partition.Listing.{list_keys_lem, list_keys-Spends}
use skewer.Store.Spec.{Tracker, Represents, covers-message_queue, covers-messages}
use skewer.Store.State.{Store, Settled, settle_lem}
use skewer.Store.Landed.{IsAt, Represents-Holds}
use skewer.Store.Prune.{prune, pruned, prune_orphaned}
use skewer.Store.Prune.Walk.{
  named_in, orphans_lem, delete_each_lem, orphans-Spends, delete_each-Spends,
}

Represents-delete :
    (o : Contents) (w : Tracker) (os : List Bytes)
    → Represents o w
    → Represents (remove_all o (prefix messages) os) w
Represents-delete o w os rep e v q = ground (arith, rep e v q, covers-message_queue q e os v)

kept :
    (x : Option Bytes) (n l e : Bool)
    → l ≡ is_some x
    → e ≡ (l && not n)
    → (if e then none else x) ≡ (if n then x else none)
kept none n l e h k = ground arith
kept (some c) n l e h k = ground arith

orphans-content :
    (o : Contents) (w : Tracker) (us os : List Bytes) (v : Bytes)
    → elem v us ≡ is_some (o (prefix messages ++ v))
    → elem v os ≡ (elem v us && not (named_in destinations w v))
    → remove_all o (prefix messages) os (prefix messages ++ v)
      ≡ (if named_in destinations w v then o (prefix messages ++ v) else none)
orphans-content o w us os v listed h =
    rw (covers-messages os v)
      (kept (o (prefix messages ++ v)) (named_in destinations w v) (elem v us) (elem v os) listed h)

module _ {D : Type 0} ⦃b : Badger D⦄ where
  -- Only the contents of the messages that some queue but the sent ones names are left.
  pub record PrunedTo (o : Contents) (w : Tracker) (x : D) : Type 0 where
    pub state : Represents (b.get x) w
    pub content :
        (v : Bytes)
        → b.get x (prefix messages ++ v)
          ≡ (if named_in destinations w v then o (prefix messages ++ v) else none)

  prune_lem :
      (o : Contents) (w : Tracker)
      → Represents o w
      → Triple {D = D} (Holds o) prune (λ _. PrunedTo o w)
  unfolding prune
  prune_lem o w rep = Triple-bind _ _ (list_keys_lem o (prefix messages)) (λ us.
      Triple-assume (λ listed. Triple-bind _ _ (orphans_lem o w rep us) (λ os. Triple-assume (λ h.
        Triple-bind _ _ (delete_each_lem os o) (λ _.
          Triple-weaken (Triple-pure _ (length os)) (λ _ x k. record {
            state =
                Represents-Holds (remove_all o (prefix messages) os) w x k
                  (Represents-delete o w os rep);
            content = λ v. k (prefix messages ++ v) ∙ orphans-content o w us os v (listed v) (h v);
          }))))))

  prune-Spends : Spends {D = D} prune
  unfolding prune
  prune-Spends = Spends-bind _ _ (list_keys-Spends (prefix messages)) (λ us.
      Spends-bind _ _ (orphans-Spends us)
        (λ os. Spends-bind _ _ (delete_each-Spends os) (λ _. Spends-pure (length os))))

module _ {D T : Type 0} ⦃b : Badger D⦄ where
  abbrev pub PruneEnds : Store D T → Tracker → Outcome Error (Unit {0}) × Store D T → Type 0
  PruneEnds s w (ok u, s') =
      PrunedTo (b.get s.db) w s'.db × (s' ≡ record s { db = s'.db; plan = s'.plan })
  PruneEnds s w (err e, s') = (s' ≡ record s { plan = s'.plan })

  Settled-PruneEnds :
      (s : Store D T) (w : Tracker) (r : Outcome Error ℕ × Store D T)
      → Settled (λ _. PrunedTo (b.get s.db) w) s r
      → PruneEnds s w (pruned r)
  Settled-PruneEnds s w (ok n, s') h = (h.after, h.rest)
  Settled-PruneEnds s w (err e, s') h =
      h.rest ∙ ap (λ x. record s { db = x; plan = s'.plan }) h.after

  -- `pruneOrphaned` ends. On success every queue is what it was, and of the contents exactly those
  -- are left whose message is, for some destination, in the ready, the failed or the
  -- permanent-errors queue; on an error nothing has changed.
  pub prune_orphaned_refines :
      (s : Store D T) (w : Tracker)
      → IsAt s w
      → (r : Outcome Error (Unit {0}) × Store D T) × (prune_orphaned s ≡ some r) × PruneEnds s w r
  unfolding prune_orphaned
  prune_orphaned_refines s w rep =
      let (r, ends, h) =
        settle_lem (atomically prune) s (atomically-Shortens prune prune-Spends)
          (atomically-Helps prune (prune_lem (b.get s.db) w rep)) (λ j. refl) in
      (pruned r, rw ends, Settled-PruneEnds s w r h)
