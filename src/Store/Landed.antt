-- ===== src/Store/Landed.antt =====
-- How an operation of the store ends, in terms of the specification.
use skewer.Prelude.{some, ◌++◌, ◌≡◌, ◌≢◌, refl, sym, ◌∙◌, is_some, false, ap}
use mathlib.Core.Path.{subst}
use skewer.Prelude.Outcome.{Outcome, ok, err}
use skewer.Store.Badger.{Error, Badger, M, Helper, conflicts, atomically}
use skewer.Store.Badger.Triple.{Contents, Triple, Triple-weaken, Helps, atomically-Helps, Holds}
use skewer.Store.Badger.Ends.{Spends, Shortens, atomically-Shortens}
use skewer.Store.Partition.Keys.{queue, prefix}
use skewer.Store.Spec.{Tracker, Represents, in_queue}
use skewer.Store.State.{Store, settle, Settled, settle_lem}

module _ {D : Type 0} ⦃b : Badger D⦄ where
  pub Represents-Holds :
      (o : Contents) (w : Tracker) (d : D) → Holds o d → Represents o w → Represents (b.get d) w
  Represents-Holds o w d h rep e v q =
      subst (λ x. is_some x ≡ in_queue (w e v) q) (sym (h (prefix (queue q e) ++ v))) (rep e v q)

module _ {D T : Type 0} ⦃b : Badger D⦄ where
  -- The database of the store is in the abstract state `w`.
  abbrev pub IsAt : Store D T → Tracker → Type 0
  IsAt s w = Represents (b.get s.db) w

  -- From `s`: a success reaches `w` with the counts `c` and leaves the other fields alone; an error
  -- is no conflict and changes nothing but badger's answers.
  abbrev pub Landed : {A : Type 0} → Store D T → Tracker → T → Outcome Error A × Store D T → Type 0
  Landed s w c (ok a, s') = IsAt s' w × (s' ≡ record s { db = s'.db; plan = s'.plan; counts = c })
  Landed s w c (err e, s') = (s' ≡ record s { plan = s'.plan }) × (e ≢ Error.conflict)

pub not_conflict : (e : Error) → conflicts {A = Unit {0}} (err e) ≡ false → e ≡ Error.conflict → ⊥
not_conflict e h c = cc

module _ {D T A : Type 0} ⦃b : Badger D⦄ where
  Settled-Landed :
      (w : Tracker) (s : Store D T) (r : Outcome Error A × Store D T)
      → Settled (λ _ d. Represents (b.get d) w) s r
      → Landed s w s.counts r
  Settled-Landed w s (ok a, s') h = (h.after, h.rest)
  Settled-Landed w s (err e, s') h = (
    h.rest ∙ ap (λ d. record s { db = d; plan = s'.plan }) h.after,
    λ c. not_conflict e h.no_conflict c,
  )

  pub settle_reaches :
      (w : Tracker) (helper : Helper D A) (s : Store D T)
      → Shortens helper
      → Helps (Holds (b.get s.db)) helper (λ _ d. Represents (b.get d) w)
      → (r : Outcome Error A × Store D T) × (settle helper s ≡ some r) × Landed s w s.counts r
  settle_reaches w helper s shortens helps =
      let (r, ends, h) = settle_lem helper s shortens helps (λ j. refl) in
      (r, ends, Settled-Landed w s r h)

  pub settle-Landed :
      (o : Contents) (w : Tracker) (body : M D A) (s : Store D T)
      → Spends body
      → Triple (Holds (b.get s.db)) body (λ _. Holds o)
      → Represents o w
      → (r : Outcome Error A × Store D T) × (settle (atomically body) s ≡ some r)
        × Landed s w s.counts r
  settle-Landed o w body s spends triple rep =
      settle_reaches w (atomically body) s (atomically-Shortens body spends)
        (atomically-Helps body (Triple-weaken triple (λ a d h. Represents-Holds o w d h rep)))
