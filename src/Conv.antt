-- ===== src/Conv.antt =====
-- Timestamps as bytes (utils/conv.go): `Time2Bytes` and `Bytes2Time` over the varints of
-- encoding/binary, whose loops are written out.
pub mod RoundTrip
use skewer.Prelude.{
  ℕ, zero, suc, ◌+◌, ◌-◌, ◌*◌, ◌/◌, ◌%◌, ◌^◌, Bool, true, false, Option, none, some, List, [], ◌∷◌,
  ◌||◌, ◌&&◌, Bytes, length, ltb, leb, ◌==◌, if◌then◌else◌,
}
use skewer.Prelude.Int.{ℤ, pos, negsuc}

abbrev pub word : ℕ
word = 2 ^ 64

-- `uint64(x)` of an int64
abbrev pub to_word : ℤ → ℕ
to_word (pos n) = n % word
to_word (negsuc n) = word - 1 - n % word

-- `int64(x)` of a uint64
abbrev pub of_word : ℕ → ℤ
of_word w = if ltb w (2 ^ 63) then pos w else negsuc (word - 1 - w)

abbrev pub zigzag_word : Bool → ℕ → ℕ
zigzag_word negative ux = if negative then word - 1 - ux else ux

-- `ux := uint64(x) << 1; if x < 0 { ux = ^ux }`
zigzag : ℤ → ℕ
zigzag (pos n) = zigzag_word false (to_word (pos n) * 2 % word)
zigzag (negsuc n) = zigzag_word true (to_word (negsuc n) * 2 % word)

-- `x := int64(ux >> 1); if ux&1 != 0 { x = ^x }`
unzigzag : ℕ → ℤ
unzigzag ux = if ux % 2 == 1 then of_word (word - 1 - ux / 2) else of_word (ux / 2)

-- `for x >= 0x80 { ... }` of `binary.PutUvarint`, with the number of rounds left. Ten bytes hold
-- every uint64.
put_uvarint : ℕ → ℕ → Bytes
put_uvarint zero x = x % 256 ∷ []
put_uvarint (suc rounds) x =
    let rest = put_uvarint rounds (x / 128) in if ltb x 128 then x ∷ [] else (x % 128 + 128) ∷ rest

-- `binary.Uvarint`: the value and the number of bytes read; `none` where that number is not
-- positive, for a text that ends early or a value past 64 bits. `i` is the index, `x` the value so
-- far, and `1 << s` the weight of the next seven bits.
uvarint : Bytes → (i x weight : ℕ) → Option (ℕ × ℕ)
uvarint [] i x weight = none
uvarint (b ∷ bs) i x weight =
    let rest = uvarint bs (i + 1) ((x + b % 128 * weight) % word) (weight * 128) in
    if ltb b 128
    then (if ltb 9 i || (i == 9 && ltb 1 b) then none else some ((x + b * weight) % word, i + 1))
    else rest

-- `Time2Bytes`: the nanoseconds of a time as a varint. `dst` only lends its storage.
unfoldable pub time_to_bytes : ℤ → Bytes
unfolding zigzag put_uvarint
time_to_bytes nanos = put_uvarint 9 (zigzag nanos)

abbrev found : Option (ℕ × ℕ) → Option (ℤ × ℕ)
unfolding unzigzag
found none = none
found (some (ux, n)) = some (unzigzag ux, n)

-- `Bytes2Time`: `none` stands for the results with `n <= 0`.
unfoldable pub bytes_to_time : Bytes → Option (ℤ × ℕ)
unfolding uvarint unzigzag
bytes_to_time b = found (uvarint b 0 0 1)
