-- ===== src/Ring/Nodes.antt =====
-- What a step that writes to one node does at the others.
use mathlib.Core.Path.{subst}
use skewer.Prelude.{
  ℕ, ◌+◌, ◌≤◌, ◌<◌, true, false, Option, ◌≡◌, refl, ap, sym, ◌∙◌, arith, ◌==◌, ==_iff, Bool-cases,
  inl, inr,
}
use skewer.Ring.Window.{slots_apart}
use skewer.Ring.{set, Stage, System, slot}
use skewer.Ring.Invariant.{
  owned, apart_owner, set-same, set-other, full, seq_of, full-active, Inv, in_window, window_slots,
}

module _ {A : Type 0} where
  pub stored-seq :
      (s : System A) (p q v : ℕ) (x : Stage)
      → (p < s.ring.queue) × (s.ring.queue ≤ p + s.ring.size)
      → (q < s.ring.queue) × (s.ring.queue ≤ q + s.ring.size)
      → v ≡ seq_of x p s.ring.size
      → s.ring.position (slot s q) ≡ seq_of (s.stage q) q s.ring.size
      → set s.ring.position (slot s p) v (slot s q) ≡ seq_of (set s.stage p x q) q s.ring.size
  stored-seq s p q v x mine its value old = elim (Bool-cases (p == q)) [
    | inl same ↦
        subst
          (λ r.
            set s.ring.position (slot s p) v (slot s r) ≡ seq_of (set s.stage p x r) r s.ring.size)
          ((==_iff p q).0 same)
          (set-same s.ring.position (slot s p) v
            ∙ value
            ∙ ap (λ y. seq_of y p s.ring.size) (sym (set-same s.stage p x)))
    | inr other ↦
        set-other s.ring.position (slot s p) v (slot s q) (window_slots s p q other mine its)
        ∙ old
        ∙ ap (λ y. seq_of y q s.ring.size) (sym (set-other s.stage p x q other))
  ]

  pub stored-grow :
      (s : System A) (p q v : ℕ)
      → s.ring.position (slot s p) ≤ v
      → s.ring.position (slot s q) ≤ set s.ring.position (slot s p) v (slot s q)
  stored-grow s p q v l = elim (Bool-cases (slot s p == slot s q)) [
    | inl same ↦ rw same (omega (arith, ap s.ring.position ((==_iff (slot s p) (slot s q)).0 same)))
    | inr other ↦ rw other (omega arith)
  ]

  pub stored-fresh :
      (s : System A)
      → Inv s
      → (p q v : ℕ) → p < s.ring.queue
      → s.ring.queue ≤ q
      → q < s.ring.size
      → set s.ring.position (slot s p) v (slot s q) ≡ q
  stored-fresh s i p q v below l k =
      set-other s.ring.position (slot s p) v (slot s q)
        (slots_apart s.ring.size p q (ground arith) (omega arith) (omega arith))
      ∙ i.fresh q l k

  pub kept-other :
      (s : System A)
      → Inv s
      → (p q : ℕ) (v : Option A) → (p == q) ≡ false
      → (p < s.ring.queue) × (s.ring.queue ≤ p + s.ring.size)
      → full (s.stage q) ≡ true
      → set s.ring.content (slot s p) v (slot s q) ≡ s.item q
  kept-other s i p q v other mine h =
      set-other s.ring.content (slot s p) v (slot s q)
        (window_slots s p q other mine (in_window s i q (full-active (s.stage q) h)))
      ∙ i.kept q h

  -- Where the stage of a position is one that its thread is at work on, the positions of the other
  -- threads are others.
  pub others_stage :
      (s : System A) (p t u : ℕ) (x : Stage)
      → s.owner p ≡ t
      → (t == u) ≡ false
      → (q : ℕ) → s.owner q ≡ u
      → owned (s.stage q) ≡ true
      → (set s.stage p x q ≡ s.stage q) × (s.owner q ≡ s.owner q) × (s.item q ≡ s.item q)
  others_stage s p t u x mine other q o h =
      (set-other s.stage p x q (apart_owner s.owner p q t u other mine o), refl, refl)
