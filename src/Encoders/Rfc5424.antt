-- ===== src/Encoders/Rfc5424.antt =====
-- Messages as RFC 5424 text (encoders/rfc5424.go). A Go map is a list of its entries in the order of
-- the loop; the time is its text in the format `time.RFC3339`. A message has the fields that the
-- encoder reads, and its priority is not negative.
pub mod Values
pub mod Header
use skewer.Prelude.{
  ℕ, zero, suc, ◌+◌, Bool, true, false, not, ◌&&◌, ◌||◌, Option, none, some, List, [], ◌∷◌, ◌++◌,
  Bytes, codes, length, take, ltb, leb, ◌==◌, if◌then◌else◌,
}
use skewer.Prelude.Outcome.{Outcome, ok, err}
use skewer.Frames.{digits_from}

pub record SyslogMessage : Type 0 where
  pub priority : ℕ
  pub time_reported : Bytes
  pub host_name : Bytes
  pub app_name : Bytes
  pub proc_id : Bytes
  pub msg_id : Bytes
  pub message : Bytes
  pub properties : List (Bytes × List (Bytes × Bytes))

-- The property that is named in the error.
pub data Invalid : Type 0 where
  hostname appname procid msgid sd_id sd_name sd_value : Invalid

-- `utils.PrintableUsASCII`: a byte that is not ASCII is part of a rune past 126.
abbrev pub printable : Bytes → Bool
printable [] = true
printable (c ∷ s) = leb 33 c && (leb c 126 && printable s)

-- `validName`
abbrev pub valid_name : Bytes → Bool
valid_name [] = true
valid_name (c ∷ s) =
    leb 33 c && (leb c 126 && (not (c == b'=' || c == b']' || c == b'"') && valid_name s))

abbrev within : ℕ → ℕ → ℕ → Bool
within lo hi b = leb lo b && leb b hi

-- The bytes that must follow the first byte of a rune.
abbrev continuations : ℕ → Option (List (ℕ × ℕ))
continuations b =
    if ltb b 128
    then some []
    else if within 194 223 b
    then some ((128, 191) ∷ [])
    else if b == 224
    then some ((160, 191) ∷ (128, 191) ∷ [])
    else if b == 237
    then some ((128, 159) ∷ (128, 191) ∷ [])
    else if within 225 239 b
    then some ((128, 191) ∷ (128, 191) ∷ [])
    else if b == 240
    then some ((144, 191) ∷ (128, 191) ∷ (128, 191) ∷ [])
    else if within 241 243 b
    then some ((128, 191) ∷ (128, 191) ∷ (128, 191) ∷ [])
    else if b == 244
    then some ((128, 143) ∷ (128, 191) ∷ (128, 191) ∷ [])
    else none

abbrev starting : Option (List (ℕ × ℕ)) → (List (ℕ × ℕ) → Bool) → Bool
starting none f = false
starting (some rs) f = f rs

-- `utf8.ValidString`, with the ranges of the bytes that complete the rune
abbrev pub valid_utf8 : Bytes → List (ℕ × ℕ) → Bool
valid_utf8 [] [] = true
valid_utf8 [] (r ∷ rs) = false
valid_utf8 (b ∷ s) [] = starting (continuations b) (valid_utf8 s)
valid_utf8 (b ∷ s) ((lo, hi) ∷ rs) = within lo hi b && valid_utf8 s rs

abbrev pub check : Bool → Invalid → Option Invalid → Option Invalid
check good i rest = if good then rest else some i

abbrev invalid_params : List (Bytes × Bytes) → Option Invalid → Option Invalid
invalid_params [] rest = rest
invalid_params ((name, value) ∷ ps) rest =
    check (valid_name name) sd_name (check (valid_utf8 value []) sd_value (invalid_params ps rest))

abbrev invalid_elements : List (Bytes × List (Bytes × Bytes)) → Option Invalid
invalid_elements [] = none
invalid_elements ((sid, ps) ∷ es) =
    check (valid_name sid) sd_id (invalid_params ps (invalid_elements es))

abbrev short : Bytes → ℕ → Bool
short s n = leb (length s) n

-- `validRfc5424`: the first property found invalid
unfoldable pub invalid_rfc5424 : SyslogMessage → Option Invalid
invalid_rfc5424 m = check (printable m.host_name) hostname (
    check (short m.host_name 255) hostname (
      check (printable m.app_name) appname (
        check (short m.app_name 48) appname (
          check (printable m.proc_id) procid (
            check (short m.proc_id 128) procid (
              check (printable m.msg_id) msgid
                (check (short m.msg_id 32) msgid (invalid_elements m.properties))))))))

-- `nilify`
abbrev pub nilify : Bytes → Bytes
nilify [] = codes "-"
nilify (c ∷ s) = c ∷ s

abbrev pub special : ℕ → Bool
special c = c == b'\\' || c == b'"' || c == b']'

abbrev pub escape_count : Bytes → ℕ
escape_count [] = 0
escape_count (c ∷ s) = (if special c then 1 else 0) + escape_count s

-- The second loop of `escapeSDParam`.
abbrev pub escaped : Bytes → Bytes
escaped [] = []
escaped (c ∷ s) = let rest = escaped s in if special c then b'\\' ∷ c ∷ rest else c ∷ rest

-- `escapeSDParam`
unfoldable pub escape_sd_param : Bytes → Bytes
escape_sd_param s = if escape_count s == 0 then s else escaped s

abbrev params_text : List (Bytes × Bytes) → Bytes
params_text [] = []
params_text ((name, value) ∷ ps) =
    b' ' ∷ (take 32 name ++ b'=' ∷ b'"' ∷ (escape_sd_param value ++ b'"' ∷ params_text ps))

abbrev elements_text : List (Bytes × List (Bytes × Bytes)) → Bytes
elements_text [] = []
elements_text ((sid, ps) ∷ es) = b'[' ∷ (sid ++ (params_text ps ++ b']' ∷ elements_text es))

abbrev properties_text : List (Bytes × List (Bytes × Bytes)) → Bytes
properties_text [] = codes "-"
properties_text (e ∷ es) = elements_text (e ∷ es)

abbrev message_text : Bytes → Bytes
message_text [] = []
message_text (c ∷ s) = b' ' ∷ c ∷ s

-- What follows the header.
abbrev pub body : SyslogMessage → Bytes
body m = properties_text m.properties ++ message_text m.message

unfoldable pub first_word : SyslogMessage → Bytes
unfolding digits_from
first_word m = b'<' ∷ (digits_from 20 1 m.priority [] ++ b'>' ∷ b'1' ∷ [])

abbrev pub whole_text : SyslogMessage → Bytes
whole_text m =
    first_word m
    ++ b' '
      ∷ (m.time_reported
          ++ b' '
            ∷ (nilify m.host_name
                ++ b' '
                  ∷ (nilify m.app_name
                      ++ b' ' ∷ (nilify m.proc_id ++ b' ' ∷ (nilify m.msg_id ++ b' ' ∷ body m)))))

abbrev pub encoded : SyslogMessage → Option Invalid → Outcome Invalid Bytes
encoded m (some i) = err i
encoded m none = ok (whole_text m)

-- `encodeMsg5424`, whose writer takes all bytes
unfoldable pub encode_msg_5424 : SyslogMessage → Outcome Invalid Bytes
encode_msg_5424 m = encoded m (invalid_rfc5424 m)
