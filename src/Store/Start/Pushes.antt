-- ===== src/Store/Start/Pushes.antt =====
-- What the first steps of a start do to the place of a message: it may go from a sent or a failed
-- queue to the ready queue, or leave a failed queue.
use mathlib.Core.Path.{subst}
use skewer.Prelude.{
  ℕ, Bool, true, false, some, List, [], ◌∷◌, ◌≡◌, refl, sym, ◌∙◌, ap, arith, Bytes, take, elem,
}
use skewer.Prelude.Int.{ℤ}
use skewer.Prelude.Outcome.{Outcome, ok, err}
use skewer.Conf.Destination.{Destination, destinations}
use skewer.Store.Badger.{Error, Badger}
use skewer.Store.Partition.Keys.{ready, sent, failed, perm_errors}
use skewer.Store.Spec.{Where, absent, waiting, Tracker, in_queue, tracker-same}
use skewer.Store.State.{Store, settle}
use skewer.Store.Landed.{IsAt}
use skewer.Store.Reset.{do_reset, reset_failures}
use skewer.Store.Reset.Sorting.{in_failed}
use skewer.Store.Reset.Each.{in_turn, at_dest, for_each-keeps, rebase}
use skewer.Store.Reset.Stuck.{unstick, Unstuck}
use skewer.Store.Start.Gauge.{NoneSent}
use skewer.Store.Reset.Failures.{RetriedAt, sorted_spec, do_reset_refines}

abbrev pub pushed : Where → Where → Bool
pushed absent absent = true
pushed (waiting ready) (waiting ready) = true
pushed (waiting sent) (waiting sent) = true
pushed (waiting sent) (waiting ready) = true
pushed (waiting failed) (waiting failed) = true
pushed (waiting failed) (waiting ready) = true
pushed (waiting failed) absent = true
pushed (waiting perm_errors) (waiting perm_errors) = true
pushed _ _ = false

abbrev pub Pushed : Tracker → Tracker → Type 0
Pushed w w' = (e : Destination) (v : Bytes) → pushed (w e v) (w' e v) ≡ true

pushed_refl : (x : Where) → pushed x x ≡ true
pushed_refl x = ground arith

pushed_trans : (x y z : Where) → pushed x y ≡ true → pushed y z ≡ true → pushed x z ≡ true
pushed_trans x y z h k = ground arith

pub Pushed-trans : (w x y : Tracker) → Pushed w x → Pushed x y → Pushed w y
Pushed-trans w x y h k e v = pushed_trans (w e v) (x e v) (y e v) (h e v) (k e v)

pushed-unstick : (x : Where) → pushed x (unstick x) ≡ true
pushed-unstick x = ground arith

unstick-calm : (x : Where) → in_queue (unstick x) sent ≡ false
unstick-calm x = ground arith

Pushed-in_turn : (ds : List Destination) (w : Tracker) → Pushed w (in_turn (at_dest unstick) ds w)
Pushed-in_turn [] w = λ e v. pushed_refl (w e v)
Pushed-in_turn (d ∷ ds) w =
    Pushed-trans w (at_dest unstick d w) (in_turn (at_dest unstick) ds (at_dest unstick d w))
      (λ e v. ground (arith, pushed-unstick (w e v), pushed_refl (w e v)))
      (Pushed-in_turn ds (at_dest unstick d w))

Pushed-sorted :
    (w : Tracker) (d : Destination) (expired invalid : List Bytes)
    → ((v : Bytes) → elem v expired ≡ true → w d v ≡ waiting failed)
    → Pushed w (sorted_spec w d expired invalid)
Pushed-sorted w d expired invalid from e v =
    ground (arith, pushed_refl (w e v), from v, tracker-same w d e v)

module _ {D T : Type 0} ⦃b : Badger D⦄ where
  -- From `s`, in a state that `w` represents, the database alone has changed, to a state that `w` is
  -- pushed to.
  abbrev pub PushedTo : Store D T → Tracker → Store D T → Type 0
  PushedTo s w s' =
      (w' : Tracker) × IsAt s' w' × Pushed w w' × (s' ≡ record s { db = s'.db; plan = s'.plan })

  stay : (s : Store D T) (w : Tracker) → IsAt s w → PushedTo s w s
  stay s w rep = (w, rep, λ e v. pushed_refl (w e v), refl)

  PushedTo-trans :
      (s s' x : Store D T) (w : Tracker) (p : PushedTo s w s') → PushedTo s' p.0 x → PushedTo s w x
  PushedTo-trans s s' x w (w', rep, push, same) (v, rep', push', same') =
      (v, rep', Pushed-trans w w' v push push', rebase s same same')

  pub IsAt-plan :
      (s s' : Store D T) (w : Tracker) → IsAt s w → s' ≡ record s { plan = s'.plan } → IsAt s' w
  IsAt-plan s s' w rep h = subst (λ (x : Store D T). IsAt x w) (sym h) rep

  pub plan_only :
      (s s' : Store D T)
      → s' ≡ record s { plan = s'.plan }
      → s' ≡ record s { db = s'.db; plan = s'.plan }
  plan_only s s' h =
      h ∙ ap (λ d. record s { db = d; plan = s'.plan }) (sym (ap (λ (x : Store D T). x.db) h))

  unchanged :
      (s s' : Store D T) (w : Tracker)
      → IsAt s w
      → s' ≡ record s { plan = s'.plan }
      → PushedTo s w s'
  unchanged s s' w rep h = (w, IsAt-plan s s' w rep h, λ e v. pushed_refl (w e v), plan_only s s' h)

  RetriedAt-PushedTo :
      (now : ℤ) (d : Destination) (s : Store D T) (w : Tracker)
      (r : Outcome Error (ℕ × ℕ) × Store D T)
      → IsAt s w
      → RetriedAt now d s w r
      → PushedTo s w r.1
  RetriedAt-PushedTo now d s w (ok n, s') rep (h, same) = (
    sorted_spec w d h.expired h.invalid,
    h.reaches,
    Pushed-sorted w d h.expired h.invalid (λ v e. in_failed (w d v) ((h.judged v).expired_due e).0),
    same,
  )
  RetriedAt-PushedTo now d s w (err e, s') rep (same, calm) = unchanged s s' w rep same

  pub reset_failures-PushedTo :
      (now : Destination → ℤ) (s : Store D T) (w : Tracker)
      → IsAt s w
      → (r : Outcome Error (Unit {0}) × Store D T) × (reset_failures now s ≡ some r)
        × PushedTo s w r.1
  unfolding reset_failures
  reset_failures-PushedTo now s w rep =
      for_each-keeps (PushedTo s w) (λ d. settle (do_reset (now d) d))
        (λ d t p.
          let (r, ends, h) = do_reset_refines (now d) d t p.0 p.1 in
          (r, ends, PushedTo-trans s t r.1 w p (RetriedAt-PushedTo (now d) d t p.0 r p.1 h)))
        destinations s (stay s w rep)

  pub Unstuck-PushedTo :
      (s : Store D T) (w : Tracker) (r : Outcome Error (Unit {0}) × Store D T)
      → Unstuck s w r
      → (p : PushedTo s w r.1) × (r.0 ≡ ok tt → NoneSent p.0)
  Unstuck-PushedTo s w (ok u, s') (at, same) = (
    ((λ e v. unstick (w e v)), at, (λ e v. pushed-unstick (w e v)), same),
    λ good e v. unstick-calm (w e v),
  )
  Unstuck-PushedTo s w (err e, s') (k, at, same) = (
    (
      in_turn (at_dest unstick) (take k destinations) w,
      at,
      Pushed-in_turn (take k destinations) w,
      same,
    ),
    λ (bad : err e ≡ ok tt). absurd cc,
  )
