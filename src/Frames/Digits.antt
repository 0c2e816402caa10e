-- ===== src/Frames/Digits.antt =====
-- Ten digits read back.
use native.Mathlib.Nat.{pow-suc}
use skewer.Prelude.{
  ℕ, zero, suc, ◌+◌, ◌/◌, ◌%◌, ◌^◌, ◌<◌, true, [], ◌∷◌, ◌≡◌, refl, ap, ◌∙◌, arith, Bytes, length,
}
use skewer.Frames.{digits_from, ten_digits, all_digits, atoi}

atoi-digits :
    (rounds pad n : ℕ) (acc : Bytes)
    → pad < rounds
    → n < 10 ^ pad
    → atoi 0 (digits_from rounds pad n acc) ≡ atoi n acc
unfolding digits_from
atoi-digits zero pad n acc l h = absurd (omega arith)
atoi-digits (suc rounds) zero n acc l h = ground arith
atoi-digits (suc rounds) (suc pad) n acc l h =
    atoi-digits rounds pad (n / 10) ((b'0' + n % 10) ∷ acc) (omega arith)
      (omega (arith, pow-suc 10 pad))
    ∙ ap (λ (x : ℕ). atoi x acc) (omega arith)

length-digits :
    (rounds pad n : ℕ) (acc : Bytes)
    → pad < rounds
    → n < 10 ^ pad
    → length (digits_from rounds pad n acc) ≡ pad + length acc
unfolding digits_from
length-digits zero pad n acc l h = absurd (omega arith)
length-digits (suc rounds) zero n acc l h = ground arith
length-digits (suc rounds) (suc pad) n acc l h = omega (
  arith,
  length-digits rounds pad (n / 10) ((b'0' + n % 10) ∷ acc) (omega arith)
      (omega (arith, pow-suc 10 pad)),
)

pub all_digits-digits :
    (rounds pad n : ℕ) (acc : Bytes)
    → all_digits acc ≡ true
    → all_digits (digits_from rounds pad n acc) ≡ true
unfolding digits_from
all_digits-digits zero pad n acc h = h
all_digits-digits (suc rounds) zero n acc h =
    ground (arith, all_digits-digits rounds zero (n / 10) ((b'0' + n % 10) ∷ acc))
all_digits-digits (suc rounds) (suc pad) n acc h =
    all_digits-digits rounds pad (n / 10) ((b'0' + n % 10) ∷ acc) (ground arith)

pub atoi-ten_digits : (n : ℕ) → n < 10 ^ 10 → atoi 0 (ten_digits n) ≡ n
unfolding ten_digits
atoi-ten_digits n h = atoi-digits 20 10 n [] (omega arith) h

pub length-ten_digits : (n : ℕ) → n < 10 ^ 10 → length (ten_digits n) ≡ 10
unfolding ten_digits
length-ten_digits n h = length-digits 20 10 n [] (omega arith) h

pub all_digits-ten_digits : (n : ℕ) → all_digits (ten_digits n) ≡ true
unfolding ten_digits
all_digits-ten_digits n = all_digits-digits 20 10 n [] refl
