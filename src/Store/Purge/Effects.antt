-- ===== src/Store/Purge/Effects.antt =====
-- What `PurgeBadger` does: it forgets counts, and the database stays what it was.
use skewer.Prelude.{
  ◌<◌, ℕ, true, Option, none, some, List, [], ◌∷◌, ◌≡◌, refl, ap, ◌∙◌, arith, Bytes, elem, length,
  if◌then◌else◌,
}
use skewer.Prelude.Outcome.{Outcome, ok, err}
use skewer.Store.Badger.{Error, conflict, Badger, Plan, Txn, M, conflicts}
use skewer.Store.Badger.Triple.{Helps, After}
use skewer.Store.Badger.Ends.{Spends, SpendsAt, Shortens}
use skewer.Store.Partition.{delete_many}
use skewer.Store.Partition.Keys.{messages, prefix}
use skewer.Store.Partition.Effects.{delete_many-Spends}
use skewer.Store.RefCount.{Trie, spent_in, forget, gc, forget_all}
use skewer.Store.RefCount.Gc.{elem-gc}
use skewer.Store.State.{Store, Settled, settle_lem}
use skewer.Store.Purge.{left_open, purged, delete_spent, collected, purge_badger}

module _ {T : Type 0} ⦃i : Trie T⦄ where
  lookup-forget_all :
      (us : List Bytes) (t : T) (v : Bytes)
      → i.lookup (forget_all us t) v ≡ (if elem v us then none else i.lookup t v)
  unfolding forget_all forget
  lookup-forget_all [] t v = refl
  lookup-forget_all (u ∷ us) t v =
      lookup-forget_all us (i.remove t u) v ∙ ground (arith, i.lookup-remove t u v)

  -- The count of each message after a purge.
  abbrev pub CountsPurged : T → T → Type 0
  CountsPurged before after =
      (v : Bytes)
      → i.lookup after v ≡ (if spent_in v (i.lookup before v) then none else i.lookup before v)

module _ {D A : Type 0} where
  left-conflict :
      (n : ℕ) (r : Outcome Error A) (t : Txn D)
      → SpendsAt n (r, t)
      → conflicts r ≡ true
      → length t.plan < n
  left-conflict n (ok a) t h c = cc
  left-conflict n (err conflict) t h c = h
  left-conflict n (err e) t h c = cc

  left_open-Shortens : (body : M D A) → Spends body → Shortens (left_open body)
  unfolding left_open
  left_open-Shortens body h = record {
    at = λ d plan c.
        let t : Txn D = record { view = d; plan = plan } in
        left-conflict (length plan) (body t).0 (body t).1 (h.at t) c;
  }

  same-After :
      (d x : D) (r : Outcome Error A) (plan : Plan) → d ≡ x → After (λ _ y. y ≡ x) d (r, d, plan)
  same-After d x (ok a) plan p = p
  same-After d x (err e) plan p = refl

  left_open-Helps : (body : M D A) (x : D) → Helps (λ d. d ≡ x) (left_open body) (λ _ y. y ≡ x)
  unfolding left_open
  left_open-Helps body x = record { at = λ d plan p. same-After d x _ _ p }

module _ {D T : Type 0} ⦃b : Badger D⦄ ⦃i : Trie T⦄ where
  -- The database is the same; and where the purge went well the spent counts are gone.
  abbrev pub PurgeEnds : Store D T → Outcome Error (Unit {0}) × Store D T → Type 0
  PurgeEnds s (ok u, s') = (s'.db ≡ s.db) × CountsPurged s.counts s'.counts
  PurgeEnds s (err e, s') = (s'.db ≡ s.db)

  purged-Ends :
      (us : List Bytes) (s : Store D T) (r : Outcome Error (Unit {0}) × Store D T)
      → ((v : Bytes) → elem v us ≡ spent_in v (i.lookup s.counts v))
      → Settled (λ _ y. y ≡ s.db) s r
      → PurgeEnds s (purged us r)
  purged-Ends us s (ok u, s') listed h = (
    h.after,
    λ v.
        lookup-forget_all us s'.counts v
        ∙ ground (arith, listed v, ap (λ (x : Store D T). i.lookup x.counts v) h.rest),
  )
  purged-Ends us s (err e, s') listed h = h.after

  delete_spent_lem :
      (us : List Bytes) (s : Store D T)
      → ((v : Bytes) → elem v us ≡ spent_in v (i.lookup s.counts v))
      → (r : Outcome Error (Unit {0}) × Store D T) × (delete_spent us s ≡ some r) × PurgeEnds s r
  unfolding delete_spent
  delete_spent_lem [] s listed = ((ok tt, s), refl, (refl, λ v. ground (arith, listed v)))
  delete_spent_lem (u ∷ us) s listed =
      let body : M D (Unit {0}) = delete_many (prefix messages) (u ∷ us) in
      let (r, ends, h) =
        settle_lem {P = λ d. d ≡ s.db} {Q = λ _ y. y ≡ s.db} (left_open body) s
          (left_open-Shortens body (delete_many-Spends (prefix messages) (u ∷ us)))
          (left_open-Helps body s.db) refl in
      (purged (u ∷ us) r, rw ends, purged-Ends (u ∷ us) s r listed h)

  collected-Ends :
      (garbage : Option Error) (s : Store D T) (r : Outcome Error (Unit {0}) × Store D T)
      → PurgeEnds s r
      → PurgeEnds s (collected garbage r)
  collected-Ends none s r h = h
  collected-Ends (some e) s (ok u, s') h = h.0
  collected-Ends (some e) s (err e', s') h = h

  -- `PurgeBadger` ends and has never changed the database: the contents that it deletes are deleted
  -- in a transaction that is not committed. Where it returns no error, the count of every message
  -- whose count was 0 or less is gone and every other count is what it was.
  pub purge_badger-keeps :
      (garbage : Option Error) (s : Store D T)
      → (r : Outcome Error (Unit {0}) × Store D T) × (purge_badger garbage s ≡ some r)
        × PurgeEnds s r
  unfolding purge_badger
  purge_badger-keeps garbage s =
      let (r, ends, h) = delete_spent_lem (gc s.counts) s (elem-gc s.counts) in
      (collected garbage r, rw ends, collected-Ends garbage s r h)
