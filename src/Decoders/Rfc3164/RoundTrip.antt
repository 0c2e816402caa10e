-- ===== src/Decoders/Rfc3164/RoundTrip.antt =====
-- The decoder reads what the encoder of the old format wrote.
use skewer.Prelude.{
  ℕ, zero, suc, ◌+◌, ◌<◌, ◌^◌, ◌/◌, ◌%◌, Bool-cases, inl, inr, true, [], ◌∷◌, ◌++◌, ◌≡◌, refl, ap,
  sym, ◌∙◌, arith, Bytes, append_assoc, ◌==◌,
}
use skewer.Prelude.Int.{ℤ, pos}
use mathlib.Core.Path.{subst}
use native.Mathlib.Nat.{pow-suc}
use skewer.Frames.{digits_from, all_digits, atoi}
use skewer.Frames.Digits.{all_digits-digits}
use skewer.Decoders.Texts.{trim_space}
use skewer.Encoders.Rfc5424.{SyslogMessage}
use skewer.Encoders.Rfc3164.{encode_msg_3164}
use skewer.Decoders.Rfc3164.{Layouts, with_priority, p3164}
use skewer.Decoders.Rfc3164.Header.{bracket_tag, header_text}
use skewer.Decoders.Rfc3164.Message.{Proper, p3164-message}

-- The digits that the encoder writes are read back, without the padding of the frames.
digits_value :
    (rounds pad n : ℕ) (acc : Bytes)
    → n < 10 ^ rounds
    → atoi 0 (digits_from rounds pad n acc) ≡ atoi n acc
unfolding digits_from
digits_value zero pad n acc h = ap (λ x. atoi x acc) (omega arith)
digits_value (suc rounds) zero n acc h =
    let later =
      digits_value rounds zero (n / 10) ((b'0' + n % 10) ∷ acc)
        (omega (arith, pow-suc 10 rounds)) in
    elim (Bool-cases (n == 0)) [
      | inl done ↦ rw done (ap (λ x. atoi x acc) (ground arith))
      | inr more ↦ rw more (later ∙ ap (λ x. atoi x acc) (omega arith))
    ]
digits_value (suc rounds) (suc pad) n acc h =
    digits_value rounds pad (n / 10) ((b'0' + n % 10) ∷ acc) (omega (arith, pow-suc 10 rounds))
    ∙ ap (λ x. atoi x acc) (omega arith)

digits_cons :
    (rounds pad n x : ℕ) (acc : Bytes)
    → (d : ℕ) × (ds : Bytes) × (digits_from rounds pad n (x ∷ acc) ≡ d ∷ ds)
unfolding digits_from
digits_cons zero pad n x acc = (x, acc, refl)
digits_cons (suc rounds) zero n x acc = elim (Bool-cases (n == 0)) [
  | inl done ↦ (x, acc, rw done refl)
  | inr more ↦
      let (d, ds, e) = digits_cons rounds zero (n / 10) (b'0' + n % 10) (x ∷ acc) in
      (d, ds, rw more e)
]
digits_cons (suc rounds) (suc pad) n x acc =
    digits_cons rounds pad (n / 10) (b'0' + n % 10) (x ∷ acc)

written_digits : (n : ℕ) → (d : ℕ) × (ds : Bytes) × (digits_from 20 1 n [] ≡ d ∷ ds)
unfolding digits_from
written_digits n = digits_cons 19 0 (n / 10) (b'0' + n % 10) []

-- The text of the encoder is the header that the decoder knows.
encoded_text :
    (local : Bytes) (m : SyslogMessage) (c : ℕ) (month day clock : Bytes) (h : ℕ) (host app : Bytes)
    (q : ℕ) (proc message : Bytes)
    → m.time_reported ≡ (c ∷ month) ++ b' ' ∷ (day ++ b' ' ∷ clock)
    → trim_space m.host_name ≡ h ∷ host
    → m.app_name ≡ app
    → trim_space m.proc_id ≡ q ∷ proc
    → m.message ≡ message
    → encode_msg_3164 local m
      ≡ b'<'
        ∷ (digits_from 20 1 m.priority []
            ++ b'>'
              ∷ header_text (c ∷ month) day clock (h ∷ host) (bracket_tag app (q ∷ proc)) message)
unfolding encode_msg_3164
encoded_text local m c month day clock h host app q proc message et eh ea ep em =
    rw (et, eh, ea, ep, em)
      (ap (λ t. b'<' ∷ (digits_from 20 1 m.priority [] ++ b'>' ∷ t)) (simp append_assoc))

-- Where the encoder of the old format wrote a message, the decoder reads back its priority, time,
-- host, application, process and text. The priority is below 2^63. The time is written as three words,
-- so that its day is not padded, it starts with neither a digit nor white space, and the layout reads it.
-- Host and process, trimmed, and application and text are not empty. Host, application and process
-- have no space and none of the bytes `[`, `]` and `:`; the host is one that `isHostname` accepts; the
-- text has no white space at its end.
pub p3164-encode_msg_3164 :
    (l : Layouts) (now t : ℤ) (local : Bytes) (m : SyslogMessage) (c : ℕ) (month day clock : Bytes)
    (h : ℕ) (host : Bytes) (x : ℕ) (app : Bytes) (q : ℕ) (proc : Bytes) (y : ℕ) (message : Bytes)
    → m.priority < 2 ^ 63
    → m.time_reported ≡ (c ∷ month) ++ b' ' ∷ (day ++ b' ' ∷ clock)
    → trim_space m.host_name ≡ h ∷ host
    → m.app_name ≡ x ∷ app
    → trim_space m.proc_id ≡ q ∷ proc
    → m.message ≡ y ∷ message
    → Proper l t c month day clock (h ∷ host) x app (q ∷ proc) y message
    → p3164 l now (encode_msg_3164 local m) ≡ record (with_priority now (pos m.priority)) {
      time_reported = t;
      host_name = h ∷ host;
      app_name = m.app_name;
      proc_id = q ∷ proc;
      message = m.message;
    }
p3164-encode_msg_3164 l now t local m c month day clock h host x app q proc y message small et eh ea
      ep em p =
    let (d, ds, written) = written_digits m.priority in
    let digits : all_digits (d ∷ ds) ≡ true =
      subst (λ s. all_digits s ≡ true) written (all_digits-digits 20 1 m.priority [] refl) in
    let value : atoi 0 (d ∷ ds) ≡ m.priority =
      ap (atoi 0) (sym written) ∙ digits_value 20 1 m.priority [] (omega arith) in
    let text =
      header_text (c ∷ month) day clock (h ∷ host) (bracket_tag (x ∷ app) (q ∷ proc))
        (y ∷ message) in
    ap (p3164 l now) (
      encoded_text local m c month day clock h host (x ∷ app) q proc (y ∷ message) et eh ea ep em
      ∙ ap (λ s. b'<' ∷ (s ++ b'>' ∷ text)) written)
    ∙ p3164-message l now t d ds c month day clock (h ∷ host) x app (q ∷ proc) y message digits
        (subst (λ n. n < 2 ^ 63) (sym value) small) p
    ∙ rw (value, ea, em) refl
