-- ===== src/Ring/Window.antt =====
-- Positions less than a ring's size apart that share a slot are equal.
use native.Mathlib.Nat.{div-add-mod, mul-le-mul_left, mul-suc, mod-eq-sub-mod}
use skewer.Prelude.{
  false, ◌==◌, Bool-cases, ℕ, suc, ◌+◌, ◌-◌, ◌*◌, ◌/◌, ◌%◌, ◌≤◌, ◌<◌, ◌≡◌, ◌⊎◌, inl, inr, ap, sym,
  ◌∙◌, arith, ==_iff,
}

quotients :
    (n p q a b : ℕ) → n * a + p % n ≡ p → n * b + q % n ≡ q → p % n ≡ q % n → a < b → p + n ≤ q
quotients n p q a b e f same l =
    let grow : n * suc a ≤ n * b = mul-le-mul_left n l in omega (arith, mul-suc n a)

trichotomy : (a b : ℕ) → (a < b) ⊎ ((b < a) ⊎ (a ≡ b))
trichotomy a b = ground arith

pub same_slot : (n p q : ℕ) → p % n ≡ q % n → p < q + n → q < p + n → p ≡ q
same_slot n p q same l k =
    let e = div-add-mod p n in
    let f = div-add-mod q n in
    elim (trichotomy (p / n) (q / n)) [
      | inl less ↦ absurd (omega (arith, quotients n p q (p / n) (q / n) e f same less))
      | inr (inl more) ↦ absurd (omega (arith, quotients n q p (q / n) (p / n) f e (sym same) more))
      | inr (inr eq) ↦ sym e ∙ ap (λ x. n * x + p % n) eq ∙ ap (λ x. n * (q / n) + x) same ∙ f
    ]

pub slot-back : (n p : ℕ) → n ≤ p → (p - n) % n ≡ p % n
slot-back n p l = sym (mod-eq-sub-mod l)

pub slots_apart : (n p q : ℕ) → (p == q) ≡ false → p < q + n → q < p + n → (p % n == q % n) ≡ false
slots_apart n p q other l k = elim (Bool-cases (p % n == q % n)) [
  | inl same ↦
      absurd (ground (arith, same_slot n p q ((==_iff (p % n) (q % n)).0 same) l k, ==_iff p q))
  | inr apart ↦ apart
]
