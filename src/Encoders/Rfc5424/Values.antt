-- ===== src/Encoders/Rfc5424/Values.antt =====
-- A parameter's value cannot end its quotes.
use skewer.Prelude.{
  sym, ◌∙◌, ℕ, Bool, true, false, Option, none, some, [], ◌∷◌, ◌++◌, ◌≡◌, refl, ap, arith, Bytes,
  ◌==◌, if◌then◌else◌, Bool-cases, inl, inr,
}
use skewer.Encoders.Rfc5424.{escape_count, escaped, escape_sd_param}

abbrev grown : ℕ → Option (Bytes × Bytes) → Option (Bytes × Bytes)
grown c none = none
grown c (some (v, rest)) = some (c ∷ v, rest)

-- How a receiver reads a value up to its closing quote: a backslash makes the next byte plain.
abbrev pub read_value : Bytes → Bool → Option (Bytes × Bytes)
read_value [] plain = none
read_value (c ∷ s) true = grown c (read_value s false)
read_value (c ∷ s) false =
    let quoted = read_value s true in
    let next = read_value s false in
    if c == b'\\' then quoted else if c == b'"' then some ([], s) else grown c next

escaped-plain : (s : Bytes) → escape_count s ≡ 0 → escaped s ≡ s
escaped-plain [] h = refl
escaped-plain (c ∷ s) h = ground (arith, escaped-plain s)

read_value-escaped : (v rest : Bytes) → read_value (escaped v ++ b'"' ∷ rest) false ≡ some (v, rest)
read_value-escaped [] rest = refl
read_value-escaped (c ∷ v) rest = ground (arith, read_value-escaped v rest)

-- Whatever a parameter's value is, a receiver reads exactly that value from its escaped text and
-- ends at the quote that the encoder wrote.
pub read_value-escape_sd_param :
    (v rest : Bytes) → read_value (escape_sd_param v ++ b'"' ∷ rest) false ≡ some (v, rest)
unfolding escape_sd_param
read_value-escape_sd_param v rest = elim (Bool-cases (escape_count v == 0)) [
  | inl plain ↦ rw plain (
      ap (λ s. read_value (s ++ b'"' ∷ rest) false) (sym (escaped-plain v (ground arith)))
      ∙ read_value-escaped v rest)
  | inr some_special ↦ rw some_special (read_value-escaped v rest)
]
