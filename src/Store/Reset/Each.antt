-- ===== src/Store/Reset/Each.antt =====
-- An operation on every destination in turn, up to the first error.
use mathlib.Core.Path.{subst}
use skewer.Prelude.{
  ℕ, suc, Bool, true, false, ◌||◌, Option, some, List, [], ◌∷◌, ◌≡◌, refl, sym, ◌∙◌, ap, arith,
  Bytes, take, if◌then◌else◌,
}
use skewer.Prelude.Outcome.{Outcome, ok, err}
use skewer.Conf.Destination.{Destination, kafka, destinations, letter}
use skewer.Store.Badger.{Error, wrapped, Badger}
use skewer.Store.Spec.{Where, Tracker, same_dest}
use skewer.Store.State.{Store}
use skewer.Store.Landed.{IsAt, Landed}
use skewer.Store.Reset.{carry_on, for_each}

abbrev pub in_turn : (Destination → Tracker → Tracker) → List Destination → Tracker → Tracker
in_turn step [] w = w
in_turn step (d ∷ ds) w = in_turn step ds (step d w)

-- One step per destination, where a step turns each message's place by `f`.
abbrev pub at_dest : (Where → Where) → Destination → Tracker → Tracker
at_dest f d w e v = if same_dest d e then f (w e v) else w e v

abbrev has_dest : Destination → List Destination → Bool
has_dest e [] = false
has_dest e (d ∷ ds) = same_dest d e || has_dest e ds

in_turn-at_dest :
    (f : Where → Where)
    → ((x : Where) → f (f x) ≡ f x)
    → (ds : List Destination) (w : Tracker) (e : Destination) (v : Bytes)
    → in_turn (at_dest f) ds w e v ≡ (if has_dest e ds then f (w e v) else w e v)
in_turn-at_dest f idem [] w e v = refl
in_turn-at_dest f idem (d ∷ ds) w e v =
    ground (arith, in_turn-at_dest f idem ds (at_dest f d w) e v, idem (w e v))

has_dest-destinations : (e : Destination) → has_dest e destinations ≡ true
unfolding letter
has_dest-destinations kafka = refl
has_dest-destinations _ = refl

-- All the destinations in turn are every destination once.
pub in_turn_all :
    (f : Where → Where)
    → ((x : Where) → f (f x) ≡ f x)
    → (w : Tracker) (e : Destination) (v : Bytes)
    → in_turn (at_dest f) destinations w e v ≡ f (w e v)
in_turn_all f idem w e v = in_turn-at_dest f idem destinations w e v ∙ rw (has_dest-destinations e)

module _ {D T : Type 0} ⦃b : Badger D⦄ where
  -- A success has made every step. An error has made the steps of the destinations before it, and
  -- no other.
  abbrev pub Ended :
      (Destination → Tracker → Tracker)
      → List Destination
      → Store D T
      → Tracker
      → Outcome Error (Unit {0}) × Store D T
      → Type 0
  Ended step ds s w (ok u, s') =
      IsAt s' (in_turn step ds w) × (s' ≡ record s { db = s'.db; plan = s'.plan })
  Ended step ds s w (err e, s') =
      (k : ℕ) × IsAt s' (in_turn step (take k ds) w)
      × (s' ≡ record s { db = s'.db; plan = s'.plan })

  pub rebase :
      (s : Store D T) {s' x : Store D T}
      → s' ≡ record s { db = s'.db; plan = s'.plan }
      → x ≡ record s' { db = x.db; plan = x.plan }
      → x ≡ record s { db = x.db; plan = x.plan }
  rebase s {x} h k = k ∙ ap (λ (y : Store D T). record y { db = x.db; plan = x.plan }) h

  Ended-cons :
      (step : Destination → Tracker → Tracker) (d : Destination) (ds : List Destination)
      (s s' : Store D T) (w : Tracker) (x : Outcome Error (Unit {0}) × Store D T)
      → s' ≡ record s { db = s'.db; plan = s'.plan }
      → Ended step ds s' (step d w) x
      → Ended step (d ∷ ds) s w x
  Ended-cons step d ds s s' w (ok u, t) h x = (x.0, rebase s h x.1)
  Ended-cons step d ds s s' w (err e, t) h (k, at, rest) = (suc k, at, rebase s h rest)

  Ended-err :
      (step : Destination → Tracker → Tracker) (ds : List Destination) (s s' : Store D T)
      (w : Tracker) (e : Error)
      → IsAt s w
      → s' ≡ record s { plan = s'.plan }
      → Ended step ds s w (err e, s')
  Ended-err step ds s s' w e rep h = (
    0,
    subst (λ (x : Store D T). IsAt x w) (sym h) rep,
    h ∙ ap (λ d. record s { db = d; plan = s'.plan }) (sym (ap (λ (x : Store D T). x.db) h)),
  )

module _ {D T A : Type 0} ⦃b : Badger D⦄ where
  abbrev pub Reaches :
      (Destination → Tracker → Tracker)
      → (Destination → Store D T → Option (Outcome Error A × Store D T))
      → Type 0
  Reaches step f =
      (d : Destination) (s : Store D T) (w : Tracker)
      → IsAt s w
      → (r : Outcome Error A × Store D T) × (f d s ≡ some r) × Landed s (step d w) s.counts r

  pub for_each_lem :
      (step : Destination → Tracker → Tracker)
      (f : Destination → Store D T → Option (Outcome Error A × Store D T))
      → Reaches step f
      → (ds : List Destination) (s : Store D T) (w : Tracker) → IsAt s w
      → (r : Outcome Error (Unit {0}) × Store D T) × (for_each f ds s ≡ some r)
        × Ended step ds s w r
  unfolding for_each
  for_each_lem step f reaches [] s w rep = ((ok tt, s), refl, (rep, refl))
  for_each_lem step f reaches (d ∷ ds) s w rep =
      let (r, ends, h) = reaches d s w rep in rw ends (go r h (for_each_lem step f reaches ds))
    where
      go :
          (r : Outcome Error A × Store D T)
          → Landed s (step d w) s.counts r
          → ((t : Store D T) (v : Tracker)
              → IsAt t v
              → (x : Outcome Error (Unit {0}) × Store D T) × (for_each f ds t ≡ some x)
                × Ended step ds t v x)
          → (x : Outcome Error (Unit {0}) × Store D T) × (carry_on (for_each f ds) (some r)
              ≡ some x)
            × Ended step (d ∷ ds) s w x
      go (ok a, s') h later =
          let (x, ends, k) = later s' (step d w) h.0 in
          (x, ends, Ended-cons step d ds s s' w x h.1 k)
      go (err e, s') h later =
          ((err (wrapped e), s'), refl, Ended-err step (d ∷ ds) s s' w (wrapped e) rep h.0)

module _ {D T A : Type 0} (P : Store D T → Type 0)
    (f : Destination → Store D T → Option (Outcome Error A × Store D T)) where
  carry_on-keeps :
      (ds : List Destination)
      → ((s : Store D T)
          → P s
          → (x : Outcome Error (Unit {0}) × Store D T) × (for_each f ds s ≡ some x) × P x.1)
      → (r : Outcome Error A × Store D T) → P r.1
      → (x : Outcome Error (Unit {0}) × Store D T) × (carry_on (for_each f ds) (some r) ≡ some x)
        × P x.1
  carry_on-keeps ds later (ok a, s) p = later s p
  carry_on-keeps ds later (err e, s) p = ((err (wrapped e), s), refl, p)

  -- What the operation keeps for every destination holds at the end.
  pub for_each-keeps :
      ((d : Destination) (s : Store D T)
        → P s
        → (r : Outcome Error A × Store D T) × (f d s ≡ some r) × P r.1)
      → (ds : List Destination) (s : Store D T) → P s
      → (x : Outcome Error (Unit {0}) × Store D T) × (for_each f ds s ≡ some x) × P x.1
  unfolding for_each
  for_each-keeps keeps [] s p = ((ok tt, s), refl, p)
  for_each-keeps keeps (d ∷ ds) s p =
      let (r, ends, q) = keeps d s p in rw ends (carry_on-keeps ds (for_each-keeps keeps ds) r q)
