-- ===== src/Decoders/Texts.antt =====
-- The functions of packages strconv and bytes that the decoders call, on ASCII text.
use skewer.Prelude.{
  ℕ, zero, suc, ◌+◌, ◌-◌, ◌/◌, ◌%◌, ◌^◌, Bool, ◌&&◌, ◌||◌, Option, none, some, List, [], ◌∷◌, ◌++◌,
  Bytes, ltb, leb, ◌==◌, if◌then◌else◌,
}
use skewer.Prelude.Int.{ℤ, pos, negsuc}
use skewer.Frames.{all_digits, atoi}

-- Division of ints, which rounds to zero.
unfoldable pub quot : ℤ → ℕ → ℤ
quot (pos n) d = pos (n / d)
quot (negsuc n) d = if (suc n) / d == 0 then pos 0 else negsuc ((suc n) / d - 1)

unfoldable pub rem : ℤ → ℕ → ℤ
rem (pos n) d = pos (n % d)
rem (negsuc n) d = if (suc n) % d == 0 then pos 0 else negsuc ((suc n) % d - 1)

abbrev bounded : ℕ → Option ℤ
bounded n = if ltb n (2 ^ 63) then some (pos n) else none

abbrev bounded_negative : ℕ → Option ℤ
bounded_negative zero = some (pos 0)
bounded_negative (suc n) = if ltb n (2 ^ 63) then some (negsuc n) else none

abbrev unsigned : (ℕ → Option ℤ) → Bytes → Option ℤ
unsigned f [] = none
unsigned f (c ∷ s) = if all_digits (c ∷ s) then f (atoi 0 (c ∷ s)) else none

-- `strconv.Atoi`
unfoldable pub atoi_int : Bytes → Option ℤ
atoi_int [] = none
atoi_int (c ∷ s) =
    if c == b'-'
    then unsigned bounded_negative s
    else if c == b'+'
    then unsigned bounded s
    else unsigned bounded (c ∷ s)

abbrev pub is_space : ℕ → Bool
is_space c = c == b' ' || (leb 9 c && leb c 13)

abbrev pub trim_left : Bytes → Bytes
trim_left [] = []
trim_left (c ∷ s) = if is_space c then trim_left s else c ∷ s

abbrev pub trimmed : ℕ → Bytes → Bytes
trimmed c [] = if is_space c then [] else c ∷ []
trimmed c (d ∷ s) = c ∷ d ∷ s

abbrev pub trim_right : Bytes → Bytes
trim_right [] = []
trim_right (c ∷ s) = trimmed c (trim_right s)

-- `bytes.TrimSpace`
unfoldable pub trim_space : Bytes → Bytes
trim_space s = trim_right (trim_left s)

-- `bytes.Index` of one byte
abbrev pub index : ℕ → Bytes → Option ℕ
index b [] = none
index b (c ∷ s) = elim (index b s) [
  | none ↦ if c == b then some 0 else none
  | some i ↦ if c == b then some 0 else some (suc i)
]

abbrev pub put_first : ℕ → List Bytes → List Bytes
put_first c [] = (c ∷ []) ∷ []
put_first c (w ∷ ws) = (c ∷ w) ∷ ws

-- `bytes.Split` at spaces
abbrev pub split : Bytes → List Bytes
split [] = [] ∷ []
split (c ∷ s) = let rest = split s in if c == b' ' then [] ∷ rest else put_first c rest

-- `bytes.Join` with spaces
abbrev pub join : List Bytes → Bytes
join [] = []
join (w ∷ []) = w
join (w ∷ v ∷ ws) = w ++ b' ' ∷ join (v ∷ ws)

abbrev pub count : ℕ → Bytes → ℕ
count b [] = 0
count b (c ∷ s) = (if c == b then 1 else 0) + count b s
