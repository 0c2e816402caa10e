-- ===== src/Frames/Stream.antt =====
-- A stream of frames, and signed frames.
use skewer.Prelude.{
  ℕ, zero, suc, ◌^◌, ◌<◌, ◌≤◌, Bool, true, Option, none, some, List, [], ◌∷◌, ◌++◌, ◌≡◌, refl,
  arith, Bytes, length, drop-length_append, append_assoc, ltb,
}
use skewer.Frames.{more, plugin_split, Sealing, encrypt_write, decrypted, decrypt_split, tokens}
use skewer.Frames.RoundTrip.{sealed_size, decrypt_split-encrypt_write}

-- What the writer has written of some messages.
abbrev pub written : Option Sealing → List Bytes → Bytes
written key [] = []
written key (p ∷ ps) = encrypt_write key p ++ written key ps

-- Each message is not empty, and its frame has a size of ten digits.
abbrev pub AllSized : Option Sealing → List Bytes → Type 0
AllSized key [] = Unit
AllSized key ([] ∷ ps) = ⊥
AllSized key ((x ∷ p) ∷ ps) = (sealed_size key (x ∷ p) < 10 ^ 10) × AllSized key ps

decrypted-more : (key : Option Sealing) (e : Bool) → decrypted key (more e) ≡ more e
decrypted-more none e = refl
decrypted-more (some k) e = refl

decrypt_split-short :
    (key : Option Sealing) (rest : Bytes) (at_eof : Bool)
    → length rest < 11
    → decrypt_split key rest at_eof ≡ more at_eof
unfolding decrypt_split plugin_split
decrypt_split-short key rest at_eof l =
    let short : ltb (length rest) 11 ≡ true = ground arith in rw short (decrypted-more key at_eof)

-- A stream of frames, and after them less than a header, is read back whole: the split function
-- gives the messages in their order, and leaves what follows the last frame. No message is empty,
-- the size of each frame has at most ten digits, and the split function is called at least once for
-- each message. There is one key for both, or none.
pub tokens-written :
    (key : Option Sealing) (ps : List Bytes) (rest : Bytes) (rounds : ℕ)
    → AllSized key ps
    → length rest < 11
    → length ps ≤ rounds
    → tokens (decrypt_split key) rounds (written key ps ++ rest) ≡ (ps, rest)
unfolding tokens
tokens-written key [] rest zero sized l r = refl
tokens-written key [] rest (suc rounds) sized l r = rw (decrypt_split-short key rest true l) refl
tokens-written key (p ∷ ps) rest zero sized l r = absurd (omega arith)
tokens-written key ([] ∷ ps) rest (suc rounds) sized l r = absurd sized
tokens-written key ((x ∷ p) ∷ ps) rest (suc rounds) sized l r =
    let frame = encrypt_write key (x ∷ p) in
    rw
      (
        append_assoc frame (written key ps) rest,
        decrypt_split-encrypt_write key x p (written key ps ++ rest) true sized.0,
        drop-length_append frame (written key ps ++ rest),
        tokens-written key ps rest rounds sized.1 l (omega arith),
      )
      refl
