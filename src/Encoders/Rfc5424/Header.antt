-- ===== src/Encoders/Rfc5424/Header.antt =====
-- The header of an encoded message splits back into its fields.
use skewer.Prelude.{
  ℕ, zero, suc, Bool, true, false, not, ◌&&◌, Option, none, some, List, [], ◌∷◌, ◌++◌, ◌≡◌, refl,
  ap, ◌∙◌, arith, Bytes, codes, ◌==◌, if◌then◌else◌,
}
use skewer.Prelude.Outcome.{ok}
use skewer.Frames.{digits_from, all_digits}
use skewer.Frames.Digits.{all_digits-digits}
use skewer.Encoders.Rfc5424.{
  SyslogMessage, Invalid, hostname, appname, procid, msgid, printable, check, invalid_rfc5424,
  nilify, body, first_word, whole_text, encoded, encode_msg_5424,
}

-- The bytes before the first space, and those after it.
abbrev pub word : Bytes → Bytes × Bytes
word [] = ([], [])
word (c ∷ s) = let (w, rest) = word s in if c == b' ' then ([], s) else (c ∷ w, rest)

abbrev pub words : ℕ → Bytes → List Bytes × Bytes
words zero s = ([], s)
words (suc n) s = let (w, rest) = word s in let (ws, last) = words n rest in (w ∷ ws, last)

abbrev pub no_space : Bytes → Bool
no_space [] = true
no_space (c ∷ s) = not (c == b' ') && no_space s

word-append : (p rest : Bytes) → no_space p ≡ true → word (p ++ b' ' ∷ rest) ≡ (p, rest)
word-append [] rest h = refl
word-append (c ∷ p) rest h = ground (arith, word-append p rest)

words-append :
    (n : ℕ) (p rest : Bytes)
    → no_space p ≡ true
    → words (suc n) (p ++ b' ' ∷ rest) ≡ (p ∷ (words n rest).0, (words n rest).1)
words-append n p rest h = rw (word-append p rest h) refl

printable-no_space : (s : Bytes) → printable s ≡ true → no_space s ≡ true
printable-no_space [] h = refl
printable-no_space (c ∷ s) h = ground (arith, printable-no_space s)

nilify-no_space : (s : Bytes) → printable s ≡ true → no_space (nilify s) ≡ true
nilify-no_space [] h = refl
nilify-no_space (c ∷ s) h = printable-no_space (c ∷ s) h

digits-no_space :
    (s rest : Bytes) → all_digits s ≡ true → no_space rest ≡ true → no_space (s ++ rest) ≡ true
digits-no_space [] rest h k = k
digits-no_space (c ∷ s) rest h k = ground (arith, digits-no_space s rest)

first_word-no_space : (m : SyslogMessage) → no_space (first_word m) ≡ true
unfolding first_word
first_word-no_space m =
    digits-no_space (digits_from 20 1 m.priority []) (codes ">1")
      (all_digits-digits 20 1 m.priority [] refl) refl

check-none :
    (good : Bool) (i : Invalid) (rest : Option Invalid)
    → check good i rest ≡ none
    → (good ≡ true) × (rest ≡ none)
check-none true i rest h = (refl, h)
check-none false i rest h = cc

valid-printable :
    (m : SyslogMessage)
    → invalid_rfc5424 m ≡ none
    → (printable m.host_name ≡ true)
      × (printable m.app_name ≡ true)
      × (printable m.proc_id ≡ true)
      × (printable m.msg_id ≡ true)
unfolding invalid_rfc5424
valid-printable m h =
    let host = check-none _ hostname _ h in
    let app = check-none _ appname _ (check-none _ hostname _ host.1).1 in
    let proc = check-none _ procid _ (check-none _ appname _ app.1).1 in
    let msg = check-none _ msgid _ (check-none _ procid _ proc.1).1 in
    (host.0, app.0, proc.0, msg.0)

words-whole_text :
    (m : SyslogMessage)
    → invalid_rfc5424 m ≡ none
    → no_space m.time_reported ≡ true
    → words 6 (whole_text m) ≡ (
      first_word m
          ∷ m.time_reported
          ∷ nilify m.host_name
          ∷ nilify m.app_name
          ∷ nilify m.proc_id
          ∷ nilify m.msg_id
          ∷ [],
      body m,
    )
words-whole_text m valid time =
    let (host, app, proc, msg) = valid-printable m valid in
    rw
      (
        word-append (first_word m) _ (first_word-no_space m),
        word-append m.time_reported _ time,
        word-append (nilify m.host_name) _ (nilify-no_space m.host_name host),
        word-append (nilify m.app_name) _ (nilify-no_space m.app_name app),
        word-append (nilify m.proc_id) _ (nilify-no_space m.proc_id proc),
        word-append (nilify m.msg_id) _ (nilify-no_space m.msg_id msg),
      )
      refl

encoded-ok :
    (m : SyslogMessage) (o : Option Invalid) (out : Bytes)
    → encoded m o ≡ ok out
    → (o ≡ none) × (out ≡ whole_text m)
encoded-ok m none out e = (refl, cc)
encoded-ok m (some i) out e = cc

-- An encoded message splits at its spaces into the six fields of the header, an empty one as "-",
-- and the structured data with the message: no field can add or move another. The text of the time
-- has no space.
pub words-encode_msg_5424 :
    (m : SyslogMessage) (out : Bytes)
    → no_space m.time_reported ≡ true
    → encode_msg_5424 m ≡ ok out
    → words 6 out ≡ (
      first_word m
          ∷ m.time_reported
          ∷ nilify m.host_name
          ∷ nilify m.app_name
          ∷ nilify m.proc_id
          ∷ nilify m.msg_id
          ∷ [],
      body m,
    )
unfolding encode_msg_5424
words-encode_msg_5424 m out time e =
    let (valid, text) = encoded-ok m (invalid_rfc5424 m) out e in
    ap (words 6) text ∙ words-whole_text m valid time
