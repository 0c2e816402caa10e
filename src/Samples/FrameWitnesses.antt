-- ===== src/Samples/FrameWitnesses.antt =====
-- The theorems on frames, applied to samples: a cipher that only puts 40 bytes before the message,
-- and a signature that is the message itself.
use skewer.Prelude.{
  List, refl, ◌≡◌, false, some, [], ◌∷◌, ◌++◌, Bytes, codes, length, length-append, drop,
  drop-length_append, ap, equal, equal_self, arith,
}
use skewer.Frames.{token, overhead, Sealing, decrypt_split, Signing, sign_write, sign_split, tokens}
use skewer.Frames.Fields.{Spaced, blank, n_fields, line, words, n_fields-line}
use skewer.Frames.Stream.{written, tokens-written}
use skewer.Frames.Signed.{sign_split-sign_write}

abbrev nonce : Bytes
nonce = codes "0123456789012345678901234567890123456789"

abbrev sample_sealing : Sealing
sample_sealing = record {
  seal = λ p. nonce ++ p;
  unseal = λ p. some (drop overhead p);
  length-seal = λ x p. omega (arith, length-append nonce (x ∷ p));
  unseal-seal = λ x p. ap some (drop-length_append nonce (x ∷ p));
}

abbrev sample_signing : Signing
sample_signing = record { sign = λ p. p; verify = equal; verify-sign = equal_self }

tokens-written_example :
    tokens
      (decrypt_split (some sample_sealing))
      5
      (written (some sample_sealing) (codes "abc" ∷ codes "de" ∷ []) ++ codes "000")
    ≡ (codes "abc" ∷ codes "de" ∷ [], codes "000")
tokens-written_example =
    tokens-written (some sample_sealing) (codes "abc" ∷ codes "de" ∷ []) (codes "000") 5
      (omega arith, (omega arith, tt)) (omega arith) (omega arith)

sign_split-sign_write_example :
    sign_split sample_signing (sign_write sample_signing (codes "abc") ++ codes "000") false
    ≡ token (length (sign_write sample_signing (codes "abc"))) (codes "abc")
sign_split-sign_write_example =
    sign_split-sign_write sample_signing 97 (codes "bc") (codes "000") false (omega arith)
      (omega arith)

-- `1 close 0` with two blanks in front of the second word.
abbrev relp_header : List Spaced
relp_header =
    record { blanks = []; first = b'1'; others = [] }
    ∷ record { blanks = codes "  "; first = b'c'; others = codes "lose" }
    ∷ record { blanks = codes " "; first = b'0'; others = [] }
    ∷ []

n_fields-line_example :
    n_fields 3 (line relp_header ++ codes " next") ≡ (words relp_header, length (line relp_header))
unfolding blank
n_fields-line_example =
    n_fields-line relp_header (codes " next")
      (refl, refl, refl, (refl, refl, refl, (refl, refl, refl, tt)))
