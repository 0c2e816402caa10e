-- ===== src/Ring/Take.antt =====
-- The steps of `Poll` keep the invariant.
use mathlib.Core.Path.{subst}
use skewer.Prelude.{
  ℕ, ◌+◌, ◌-◌, ◌≤◌, ◌<◌, ◌||◌, Option, none, ◌≡◌, refl, ap, sym, ◌∙◌, arith, ltb, Bool-cases, inl,
  inr,
}
use skewer.Ring.{
  set, idle, get_seen, get_owns, get_read, Stage, filled, getting, taken, done, System, slot,
  claim_get, read, release,
}
use skewer.Ring.Window.{slot-back}
use skewer.Ring.Nodes.{stored-seq, stored-grow, stored-fresh, kept-other, others_stage}
use skewer.Ring.Invariant.{
  set-same, set-other, apart, present, held, full, owned, seq_of, Good, Inv, good-set, in_window,
  Good-keeps,
}

seq_bound : (x : Stage) (q n p : ℕ) → q + n ≡ p → 2 ≤ n → seq_of x q n ≤ p
seq_bound filled q n p e l = omega arith
seq_bound getting q n p e l = omega arith
seq_bound taken q n p e l = omega arith
seq_bound done q n p e l = omega arith
seq_bound _ q n p e l = omega arith

module _ {A : Type 0} where
  -- The node of the queue's end holds no item.
  none_at_end : (s : System A) → Inv s → (p : ℕ) → s.ring.queue ≡ p → s.ring.position (slot s p) ≤ p
  none_at_end s i p e = elim (Bool-cases (ltb p s.ring.size)) [
    | inl young ↦ omega (arith, i.fresh p (omega arith) (ground arith))
    | inr old ↦
        let l : s.ring.size ≤ p = ground arith in
        let q = p - s.ring.size in
        let at =
          ap s.ring.position (sym (slot-back s.ring.size p l))
          ∙ i.seq q (omega (arith, i.big)) (omega arith) in
        subst (λ n. n ≤ p) (sym at) (seq_bound (s.stage q) q s.ring.size p (omega arith) i.big)
  ]

  filled_node :
      (s : System A)
      → Inv s
      → (p : ℕ) → s.ring.dequeue ≡ p
      → p < s.ring.position (slot s p)
      → (p < s.ring.queue) × (s.stage p ≡ filled)
  filled_node s i p e seen = elim (Bool-cases (ltb p s.ring.queue)) [
    | inl some_item ↦
        let below : p < s.ring.queue = ground arith in
        let at = i.seq p below (omega (arith, i.upper)) in
        (below, ground (arith, at, i.is_present p))
    | inr no_item ↦ absurd (omega (arith, none_at_end s i p (ground (arith, i.lower))))
  ]

  pub claim_get-Inv :
      (s : System A) (t p : ℕ)
      → Inv s
      → s.threads t ≡ get_seen p
      → s.ring.dequeue ≡ p
      → Inv (claim_get t p s)
  claim_get-Inv s t p i at e =
      let seen : p < s.ring.position (slot s p) = subst (Good s t) at (i.good t) in
      let (below, was) = filled_node s i p e seen in
      record {
        big = i.big;
        lower = omega arith;
        upper = omega (arith, i.upper);
        is_present = λ q. ground (arith, i.is_present q, i.lower, was);
        is_late = λ q. ground (arith, i.is_late q, i.lower, was);
        is_held = λ q h. ground (arith, i.is_held q, was, i.upper);
        seq = λ q l k. ground (arith, i.seq q l k, was);
        fresh = i.fresh;
        kept = λ q h. ground (arith, i.kept q, was);
        good =
            good-set (Good (claim_get t p s)) s.threads t (get_owns p)
              (set-same s.stage p getting, set-same s.owner p t)
              (λ u other.
                Good-keeps s (claim_get t p s) u (s.threads u) (λ q. omega arith)
                  (λ q o h.
                    let ne = apart s.stage owned p q (ap owned was) h in
                    (set-other s.stage p getting q ne, set-other s.owner p t q ne, refl))
                  (i.good u));
      }

  pub read-Inv : (s : System A) (t p : ℕ) → Inv s → s.threads t ≡ get_owns p → Inv (read t p s)
  read-Inv s t p i at =
      let own = subst (Good s t) at (i.good t) in
      let mine = in_window s i p (ap (λ y. present y || held y) own.0) in
      record {
        big = i.big;
        lower = i.lower;
        upper = i.upper;
        is_present = λ q. ground (arith, i.is_present q, own.0);
        is_late = λ q. ground (arith, i.is_late q, own.0);
        is_held = λ q h. ground (arith, i.is_held q, own.0);
        seq = λ q l k. ground (arith, i.seq q l k, own.0);
        fresh = i.fresh;
        kept = λ q h.
            let other =
              apart (set s.stage p taken) full p q (ap full (set-same s.stage p taken)) h in
            kept-other s i p q none other mine
              (ap full (sym (set-other s.stage p taken q other)) ∙ h);
        good =
            good-set (Good (read t p s)) s.threads t (get_read p (s.ring.content (slot s p)))
              (set-same s.stage p taken, own.1, i.kept p (ap full own.0))
              (λ u other.
                Good-keeps s (read t p s) u (s.threads u) (λ q. omega arith)
                  (others_stage s p t u taken own.1 other) (i.good u));
      }

  pub release-Inv :
      (s : System A) (t p : ℕ) (y : Option A)
      → Inv s
      → s.threads t ≡ get_read p y
      → Inv (release t p s)
  release-Inv s t p y i at =
      let own = subst (Good s t) at (i.good t) in
      let mine = in_window s i p (ap (λ y. present y || held y) own.0) in
      let was = i.seq p mine.0 mine.1 in
      let v = p + s.ring.size in
      record {
        big = i.big;
        lower = i.lower;
        upper = i.upper;
        is_present = λ q. ground (arith, i.is_present q, own.0);
        is_late = λ q. ground (arith, i.is_late q, own.0);
        is_held = λ q h. ground (arith, i.is_held q, own.0);
        seq = λ q l k. stored-seq s p q v done mine (l, k) refl (i.seq q l k);
        fresh = λ q l k. stored-fresh s i p q v mine.0 l k;
        kept = λ q h. ground (arith, i.kept q, own.0);
        good = good-set (Good (release t p s)) s.threads t idle tt (λ u other.
            Good-keeps s (release t p s) u (s.threads u)
              (λ q. stored-grow s p q v (ground (arith, was, own.0, i.big)))
              (others_stage s p t u done own.1 other) (i.good u));
      }
