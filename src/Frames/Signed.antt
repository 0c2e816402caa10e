-- ===== src/Frames/Signed.antt =====
-- Signed frames.
use mathlib.Core.Path.{subst}
use skewer.Prelude.{
  ℕ, suc, ◌+◌, ◌^◌, ◌<◌, Bool, true, false, [], ◌∷◌, ◌++◌, ◌≡◌, refl, ap, sym, ◌∙◌, arith, Bytes,
  length, length-append, take, drop, take-length_append, drop-length_append, append_assoc, ltb,
}
use skewer.Frames.{ten_digits, all_digits, atoi, byte_at, token, Signing, sign_write, sign_split}
use skewer.Frames.Digits.{atoi-ten_digits, length-ten_digits, all_digits-ten_digits}
use skewer.Frames.RoundTrip.{drop_past, byte_at-append, length-header}

slice :
    (a q rest : Bytes) (i k : ℕ)
    → i ≡ length a
    → k ≡ length a + length q
    → drop i (take k (a ++ (q ++ rest))) ≡ q
slice a q rest i k e e' =
    let whole : take k (a ++ (q ++ rest)) ≡ a ++ q = rw (sym (append_assoc a q rest)) (
      subst (λ n. take n ((a ++ q) ++ rest) ≡ a ++ q) (omega (arith, length-append a q))
        (take-length_append (a ++ q) rest)) in
    rw (whole, e) (drop-length_append a q)

at_22 :
    (h g xs : Bytes)
    → length h ≡ 10
    → length g ≡ 10
    → byte_at 21 (h ++ b' ' ∷ (g ++ b' ' ∷ xs)) ≡ b' '
at_22 h g xs e e' =
    let a = h ++ b' ' ∷ g in
    let n : length a ≡ 21 = omega (arith, length-append h (b' ' ∷ g)) in
    rw (sym (append_assoc h (b' ' ∷ g) (b' ' ∷ xs)))
      (subst (λ k. byte_at k (a ++ b' ' ∷ xs) ≡ b' ') n (byte_at-append a b' ' xs))

sign_split-headers :
    (key : Signing) (h g m s rest : Bytes) (at_eof : Bool)
    → length h ≡ 10
    → length g ≡ 10
    → all_digits h ≡ true
    → all_digits g ≡ true
    → atoi 0 h ≡ length m
    → atoi 0 g ≡ length s
    → key.verify m s ≡ true
    → sign_split key (h ++ b' ' ∷ (g ++ b' ' ∷ (m ++ (s ++ rest)))) at_eof
      ≡ token (22 + length m + length s) m
unfolding sign_split
sign_split-headers key h g m s rest at_eof hl gl hd gd hv gv ok =
    let y = m ++ (s ++ rest) in
    let x = g ++ b' ' ∷ y in
    let dat = h ++ b' ' ∷ x in
    let a = (h ++ b' ' ∷ g) ++ b' ' ∷ [] in
    let n : length a ≡ 22 =
      omega (arith, length-append (h ++ b' ' ∷ g) (b' ' ∷ []), length-append h (b' ' ∷ g)) in
    let split : dat ≡ a ++ y =
      rw (append_assoc (h ++ b' ' ∷ g) (b' ' ∷ []) y, append_assoc h (b' ' ∷ g) (b' ' ∷ y)) refl in
    let head : take 10 dat ≡ h = subst (λ k. take k dat ≡ h) hl (take-length_append h (b' ' ∷ x)) in
    let mark : byte_at 10 dat ≡ b' ' =
      subst (λ k. byte_at k dat ≡ b' ') hl (byte_at-append h b' ' x) in
    let mark' : byte_at 21 dat ≡ b' ' = at_22 h g y hl gl in
    let tail : drop 11 dat ≡ x = subst (λ k. drop (suc k) dat ≡ x) hl (drop_past h b' ' x) in
    let head' : take 10 x ≡ g = subst (λ k. take k x ≡ g) gl (take-length_append g (b' ' ∷ y)) in
    let message : drop 22 (take (22 + length m) dat) ≡ m =
      rw split (slice a m (s ++ rest) 22 (22 + length m) (omega arith) (omega arith)) in
    let signature : drop (22 + length m) (take (22 + length m + length s) dat) ≡ s =
      rw (split, sym (append_assoc a m (s ++ rest)))
        (slice (a ++ m) s rest (22 + length m) (22 + length m + length s)
          (omega (arith, length-append a m)) (omega (arith, length-append a m))) in
    let size : length dat ≡ 22 + length m + length s + length rest =
      ap length split
      ∙ omega (arith, length-append a y, length-append m (s ++ rest), length-append s rest) in
    let enough : ltb (length dat) 22 ≡ false = ground arith in
    let all : ltb (length dat) (22 + length m + length s) ≡ false = ground arith in
    rw (head, tail, head', hv, gv, enough, mark, mark', hd, gd, all, message, signature, ok) refl

-- A message that is not empty, signed with a key and written, is read back by the split function
-- with that key, whatever follows it, and the advance is exactly the bytes written, where the
-- lengths of the message and of its signature have ten digits.
pub sign_split-sign_write :
    (key : Signing) (x : ℕ) (p rest : Bytes) (at_eof : Bool)
    → length (x ∷ p) < 10 ^ 10
    → length (key.sign (x ∷ p)) < 10 ^ 10
    → sign_split key (sign_write key (x ∷ p) ++ rest) at_eof
      ≡ token (length (sign_write key (x ∷ p))) (x ∷ p)
unfolding sign_write
sign_split-sign_write key x p rest at_eof l l' =
    let m = x ∷ p in
    let s = key.sign m in
    let h = ten_digits (length m) in
    let g = ten_digits (length s) in
    let y = g ++ b' ' ∷ (m ++ s) in
    let dat : (h ++ b' ' ∷ y) ++ rest ≡ h ++ b' ' ∷ (g ++ b' ' ∷ (m ++ (s ++ rest))) =
      rw
        (
          append_assoc h (b' ' ∷ y) rest,
          append_assoc g (b' ' ∷ (m ++ s)) rest,
          append_assoc m s rest,
        )
        refl in
    let size : length (h ++ b' ' ∷ y) ≡ 22 + length m + length s = omega (
      arith,
      length-header (length m) y l,
      length-header (length s) (m ++ s) l',
      length-append m s,
    ) in
    rw (dat, size)
      (sign_split-headers key h g m s rest at_eof (length-ten_digits (length m) l)
        (length-ten_digits (length s) l') (all_digits-ten_digits (length m))
        (all_digits-ten_digits (length s)) (atoi-ten_digits (length m) l)
        (atoi-ten_digits (length s) l') (key.verify-sign m))
