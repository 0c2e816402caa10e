-- ===== src/Frames/RoundTrip.antt =====
-- What the writers wrote is what the split functions read.
use mathlib.Core.Path.{subst}
use skewer.Prelude.{
  ℕ, zero, suc, ◌+◌, ◌^◌, ◌<◌, Bool, true, false, Option, none, some, [], ◌∷◌, ◌++◌, ◌≡◌, refl, ap,
  sym, arith, Bytes, length, length-append, take, drop, take-length_append, append_assoc, ltb,
}
use skewer.Frames.{
  ten_digits, all_digits, atoi, byte_at, token, plugin_split, overhead, Sealing, encrypt_write,
  decrypt_split,
}
use skewer.Frames.Digits.{atoi-ten_digits, length-ten_digits, all_digits-ten_digits}

pub byte_at-append : (h : Bytes) (c : ℕ) (xs : Bytes) → byte_at (length h) (h ++ c ∷ xs) ≡ c
byte_at-append [] c xs = refl
byte_at-append (x ∷ h) c xs = byte_at-append h c xs

pub drop_past : (h : Bytes) (c : ℕ) (xs : Bytes) → drop (suc (length h)) (h ++ c ∷ xs) ≡ xs
drop_past [] c xs = refl
drop_past (x ∷ h) c xs = drop_past h c xs

pub take_past :
    (h : Bytes) (c : ℕ) (q rest : Bytes) (k : ℕ)
    → k ≡ suc (length h + length q)
    → take k (h ++ c ∷ (q ++ rest)) ≡ h ++ c ∷ q
take_past h c q rest zero e = absurd (omega arith)
take_past [] c q rest (suc k) e =
    ap (◌∷◌ c) (subst (λ n. take n (q ++ rest) ≡ q) (omega arith) (take-length_append q rest))
take_past (x ∷ h) c q rest (suc k) e = ap (◌∷◌ x) (take_past h c q rest k (omega arith))

-- The split of a header of ten digits and what follows it.
plugin_split-header :
    (h q rest : Bytes) (at_eof : Bool)
    → length h ≡ 10
    → all_digits h ≡ true
    → atoi 0 h ≡ length q
    → plugin_split (h ++ b' ' ∷ (q ++ rest)) at_eof ≡ token (11 + length q) q
unfolding plugin_split
plugin_split-header h q rest at_eof len digits value =
    let dat = h ++ b' ' ∷ (q ++ rest) in
    let size : length dat ≡ 11 + length q + length rest =
      omega (arith, length-append h (b' ' ∷ (q ++ rest)), length-append q rest) in
    let head : take 10 dat ≡ h =
      subst (λ k. take k dat ≡ h) len (take-length_append h (b' ' ∷ (q ++ rest))) in
    let mark : byte_at 10 dat ≡ b' ' =
      subst (λ k. byte_at k dat ≡ b' ') len (byte_at-append h b' ' (q ++ rest)) in
    let body : take (11 + length q) dat ≡ h ++ b' ' ∷ q =
      take_past h b' ' q rest (11 + length q) (omega arith) in
    let tail : drop 11 (h ++ b' ' ∷ q) ≡ q =
      subst (λ k. drop (suc k) (h ++ b' ' ∷ q) ≡ q) len (drop_past h b' ' q) in
    let enough : ltb (length dat) 11 ≡ false = ground arith in
    let whole : ltb (length dat) (11 + length q) ≡ false = ground arith in
    rw (head, mark, digits, value, enough, whole, body, tail) refl

plugin_split-framed :
    (q rest : Bytes) (at_eof : Bool)
    → length q < 10 ^ 10
    → plugin_split (ten_digits (length q) ++ b' ' ∷ (q ++ rest)) at_eof ≡ token (11 + length q) q
plugin_split-framed q rest at_eof l =
    plugin_split-header (ten_digits (length q)) q rest at_eof (length-ten_digits (length q) l)
      (all_digits-ten_digits (length q)) (atoi-ten_digits (length q) l)

pub length-header :
    (n : ℕ) (q : Bytes) → n < 10 ^ 10 → length (ten_digits n ++ b' ' ∷ q) ≡ 11 + length q
length-header n q l = omega (arith, length-append (ten_digits n) (b' ' ∷ q), length-ten_digits n l)

-- How many bytes a message takes when it is written, without its header.
abbrev pub sealed_size : Option Sealing → Bytes → ℕ
sealed_size none p = length p
sealed_size (some k) p = length p + overhead

-- A message that is not empty and whose frame has a size of ten digits, written with a key or with
-- none, is read back by a split function with the same key, whatever follows it in the stream, and
-- the advance is exactly the bytes written.
pub decrypt_split-encrypt_write :
    (key : Option Sealing) (x : ℕ) (p rest : Bytes) (at_eof : Bool)
    → sealed_size key (x ∷ p) < 10 ^ 10
    → decrypt_split key (encrypt_write key (x ∷ p) ++ rest) at_eof
      ≡ token (length (encrypt_write key (x ∷ p))) (x ∷ p)
unfolding decrypt_split encrypt_write
decrypt_split-encrypt_write none x p rest at_eof l =
    rw
      (
        append_assoc (ten_digits (length (x ∷ p))) (b' ' ∷ (x ∷ p)) rest,
        plugin_split-framed (x ∷ p) rest at_eof l,
        length-header (length (x ∷ p)) (x ∷ p) l,
      )
      refl
decrypt_split-encrypt_write (some k) x p rest at_eof l =
    let q = k.seal (x ∷ p) in
    let size : length q ≡ length (x ∷ p) + overhead = k.length-seal x p in
    let short : length q < 10 ^ 10 = omega arith in
    rw
      (
        sym size,
        append_assoc (ten_digits (length q)) (b' ' ∷ q) rest,
        plugin_split-framed q rest at_eof short,
        length-header (length q) q short,
        k.unseal-seal x p,
      )
      refl
