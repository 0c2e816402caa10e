-- ===== src/Conv/RoundTrip.antt =====
-- A timestamp is read back from its bytes.
use native.Mathlib.Nat.{div-add-mod, pow-suc}
use skewer.Prelude.{ℕ, zero, suc, ◌+◌, ◌*◌, ◌/◌, ◌%◌, ◌^◌, ◌<◌, ◌≡◌, ap, some, arith, length}
use skewer.Prelude.Int.{ℤ, pos, negsuc}
use skewer.Conv.{word, zigzag, unzigzag, put_uvarint, uvarint, time_to_bytes, bytes_to_time}

-- x = 128 * (x / 128) + x % 128, weighted
split_weight : (x w : ℕ) → x / 128 * (w * 128) + x % 128 * w ≡ x * w
split_weight x w = omega (arith, ap (λ (t : ℕ). t * w) (div-add-mod x 128))

uvarint-put_uvarint :
    (rounds x i acc w : ℕ)
    → i + rounds ≡ 9
    → w * 128 ^ rounds ≡ 2 ^ 63
    → acc + x * w < word
    → uvarint (put_uvarint rounds x) i acc w ≡ some (acc + x * w, i + length (put_uvarint rounds x))
unfolding uvarint put_uvarint
uvarint-put_uvarint zero x i acc w hi hw h =
    let full : w ≡ 2 ^ 63 = omega arith in
    let times : x * w ≡ x * 2 ^ 63 = ap (λ t. x * t) full in ground arith
uvarint-put_uvarint (suc r) x i acc w hi hw h =
    let times : w * 128 * 128 ^ r ≡ 2 ^ 63 = omega (arith, ap (λ (t : ℕ). w * t) (pow-suc 128 r)) in
    ground (
      arith,
      split_weight x w,
      uvarint-put_uvarint r (x / 128) (i + 1) (acc + x % 128 * w) (w * 128) (omega arith) times,
    )

-- The range of an int64.
abbrev pub IsInt64 : ℤ → Type 0
IsInt64 (pos n) = n < 2 ^ 63
IsInt64 (negsuc n) = n < 2 ^ 63

zigzag-lt : (t : ℤ) → IsInt64 t → zigzag t < word
unfolding zigzag
zigzag-lt (pos n) h = omega arith
zigzag-lt (negsuc n) h = omega arith

unzigzag-zigzag : (t : ℤ) → IsInt64 t → unzigzag (zigzag t) ≡ t
unfolding zigzag unzigzag
unzigzag-zigzag (pos n) h = ground arith
unzigzag-zigzag (negsuc n) h = ground arith

-- `Bytes2Time` gives back every int64 of nanoseconds that `Time2Bytes` wrote, negative ones too,
-- and has then read exactly the bytes written.
pub bytes_to_time-time_to_bytes :
    (t : ℤ) → IsInt64 t → bytes_to_time (time_to_bytes t) ≡ some (t, length (time_to_bytes t))
unfolding bytes_to_time time_to_bytes
bytes_to_time-time_to_bytes t h =
    ground (arith, zigzag-lt t h, unzigzag-zigzag t h, uvarint-put_uvarint 9 (zigzag t) 0 0 1)
