-- ===== src/Ring/Put.antt =====
-- The steps of `put` keep the invariant.
use mathlib.Core.Path.{subst}
use skewer.Prelude.{
  ℕ, ◌+◌, ◌-◌, ◌≤◌, true, false, ◌||◌, some, ◌≡◌, refl, ap, sym, ◌∙◌, arith, ltb, leb, ◌==◌, ==_iff,
  Bool-cases, inl, inr,
}
use skewer.Ring.{
  set, idle, put_seen, put_owns, put_wrote, Stage, putting, wrote, filled, done, System, slot,
  claim_put, write, publish,
}
use skewer.Ring.Window.{slot-back}
use skewer.Ring.Nodes.{stored-seq, stored-grow, stored-fresh, kept-other, others_stage}
use skewer.Ring.Invariant.{
  set-same, set-other, apart, present, late, held, full, owned, seq_of, Good, Inv, good-set,
  in_window, Good-keeps,
}

clash : (x : Stage) → x ≡ done → (present x || held x) ≡ true → ⊥
clash done e h = cc
clash _ e h = cc

module _ {A : Type 0} where
  -- In the slot of the next put, an older position is done.
  free_node :
      (s : System A)
      → Inv s
      → (p : ℕ) → s.ring.queue ≡ p
      → p ≤ s.ring.position (slot s p)
      → s.ring.size ≤ p
      → s.stage (p - s.ring.size) ≡ done
  free_node s i p e seen l =
      let q = p - s.ring.size in
      let at : s.ring.position (slot s p) ≡ seq_of (s.stage q) q s.ring.size =
        ap s.ring.position (sym (slot-back s.ring.size p l))
        ∙ i.seq q (omega (arith, i.big)) (omega arith) in
      ground (arith, at, i.big, i.is_present q)

  free_position :
      (s : System A)
      → Inv s
      → (p : ℕ) → s.ring.queue ≡ p
      → p ≤ s.ring.position (slot s p)
      → s.ring.position (slot s p) ≡ p
  free_position s i p e seen = elim (Bool-cases (ltb p s.ring.size)) [
    | inl young ↦ i.fresh p (omega arith) (ground arith)
    | inr old ↦
        let l : s.ring.size ≤ p = ground arith in
        let q = p - s.ring.size in
        ap s.ring.position (sym (slot-back s.ring.size p l))
        ∙ i.seq q (omega (arith, i.big)) (omega arith)
        ∙ rw (free_node s i p e seen l) (omega arith)
  ]

  -- There is room for the put.
  free_room :
      (s : System A)
      → Inv s
      → (p q : ℕ) → s.ring.queue ≡ p
      → p ≤ s.ring.position (slot s p)
      → (present (s.stage q) || held (s.stage q)) ≡ true
      → p + 1 ≤ q + s.ring.size
  free_room s i p q e seen h =
      let (below, above) = in_window s i q h in
      elim (Bool-cases (leb s.ring.size p)) [
        | inl old ↦
            let gone = free_node s i p e seen (ground arith) in
            elim (Bool-cases (ltb p (q + s.ring.size))) [
              | inl fits ↦ ground arith
              | inr last ↦
                  let same : q ≡ p - s.ring.size = ground arith in
                  absurd (clash (s.stage q) (ap s.stage same ∙ gone) h)
            ]
        | inr young ↦ ground arith
      ]

  room :
      (s : System A)
      → Inv s
      → (p : ℕ) → s.ring.queue ≡ p
      → p ≤ s.ring.position (slot s p)
      → p + 1 ≤ s.ring.dequeue + s.ring.size
  room s i p e seen = elim (Bool-cases (ltb p (s.ring.dequeue + s.ring.size))) [
    | inl fits ↦ ground arith
    | inr last ↦
        let same : s.ring.dequeue ≡ p - s.ring.size = ground (arith, i.upper) in
        let gone = ap s.stage same ∙ free_node s i p e seen (ground (arith, i.upper)) in
        absurd (ground (arith, i.is_late s.ring.dequeue, ap late gone))
  ]

  unborn_next : (s : System A) → Inv s → owned (s.stage s.ring.queue) ≡ false
  unborn_next s i = ground (arith, i.is_present s.ring.queue, i.is_late s.ring.queue, i.lower)

  pub claim_put-Inv :
      (s : System A) (t p : ℕ) (x : A)
      → Inv s
      → s.threads t ≡ put_seen p x
      → s.ring.queue ≡ p
      → Inv (claim_put t p x s)
  claim_put-Inv s t p x i at e =
      let seen : p ≤ s.ring.position (slot s p) = subst (Good s t) at (i.good t) in
      let here = free_position s i p e seen in
      let next = unborn_next s i in
      record {
        big = i.big;
        lower = omega (arith, i.lower);
        upper = room s i p e seen;
        is_present = λ q. ground (arith, i.is_present q, i.lower);
        is_late = λ q. ground (arith, i.is_late q, i.lower);
        is_held = λ q h. ground (arith, free_room s i p q e seen, i.is_held q);
        seq = λ q l k. ground (arith, i.seq q, here);
        fresh = λ q l k. i.fresh q (omega arith) k;
        kept = λ q h. ground (arith, i.kept q);
        good =
            good-set (Good (claim_put t p x s)) s.threads t (put_owns p x)
              (set-same s.stage p putting, set-same s.owner p t, set-same s.item p (some x))
              (λ u other.
                Good-keeps s (claim_put t p x s) u (s.threads u) (λ q. omega arith)
                  (λ q o h.
                    let ne =
                      apart s.stage owned p q (subst (λ n. owned (s.stage n) ≡ false) e next) h in
                    (
                      set-other s.stage p putting q ne,
                      set-other s.owner p t q ne,
                      set-other s.item p (some x) q ne,
                    ))
                  (i.good u));
      }

  pub write-Inv :
      (s : System A) (t p : ℕ) (x : A) → Inv s → s.threads t ≡ put_owns p x → Inv (write t p x s)
  write-Inv s t p x i at =
      let own = subst (Good s t) at (i.good t) in
      let mine = in_window s i p (ap (λ y. present y || held y) own.0) in
      record {
        big = i.big;
        lower = i.lower;
        upper = i.upper;
        is_present = λ q. ground (arith, i.is_present q, own.0);
        is_late = λ q. ground (arith, i.is_late q, own.0);
        is_held = λ q h. ground (arith, i.is_held q, own.0);
        seq = λ q l k. ground (arith, i.seq q, own.0);
        fresh = i.fresh;
        kept = λ q h. elim (Bool-cases (p == q)) [
          | inl same ↦
              subst (λ r. set s.ring.content (slot s p) (some x) (slot s r) ≡ s.item r)
                ((==_iff p q).0 same) (set-same s.ring.content (slot s p) (some x) ∙ sym own.2)
          | inr other ↦
              kept-other s i p q (some x) other mine
                (ap full (sym (set-other s.stage p wrote q other)) ∙ h)
        ];
        good =
            good-set (Good (write t p x s)) s.threads t (put_wrote p)
              (set-same s.stage p wrote, own.1)
              (λ u other.
                Good-keeps s (write t p x s) u (s.threads u) (λ q. omega arith)
                  (others_stage s p t u wrote own.1 other) (i.good u));
      }

  pub publish-Inv :
      (s : System A) (t p : ℕ) → Inv s → s.threads t ≡ put_wrote p → Inv (publish t p s)
  publish-Inv s t p i at =
      let own = subst (Good s t) at (i.good t) in
      let mine = in_window s i p (ap (λ y. present y || held y) own.0) in
      let was = i.seq p mine.0 mine.1 in
      record {
        big = i.big;
        lower = i.lower;
        upper = i.upper;
        is_present = λ q. ground (arith, i.is_present q, own.0);
        is_late = λ q. ground (arith, i.is_late q, own.0);
        is_held = λ q h. ground (arith, i.is_held q, own.0);
        seq = λ q l k. stored-seq s p q (p + 1) filled mine (l, k) refl (i.seq q l k);
        fresh = λ q l k. stored-fresh s i p q (p + 1) mine.0 l k;
        kept = λ q h. ground (arith, i.kept q, own.0);
        good = good-set (Good (publish t p s)) s.threads t idle tt (λ u other.
            Good-keeps s (publish t p s) u (s.threads u)
              (λ q. stored-grow s p q (p + 1) (ground (arith, was, own.0)))
              (others_stage s p t u filled own.1 other) (i.good u));
      }
