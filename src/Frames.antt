-- ===== src/Frames.antt =====
-- Frames between the processes of skewer (utils/split.go): `EncryptWriter`, `SigWriter`, and the
-- split functions that read what they wrote.
--
-- A writer's destination is the bytes that it is given. Encryption and signatures are parameters:
-- `Sealing` of utils/sbox over nacl, `Signing` of ed25519. A split function's error is `wrong`.
pub mod Digits
pub mod Fields
pub mod RoundTrip
pub mod Stream
pub mod Signed
use skewer.Prelude.{
  ℕ, zero, suc, ◌+◌, ◌-◌, ◌*◌, ◌/◌, ◌%◌, Bool, true, false, not, ◌&&◌, ◌||◌, Option, none, some,
  List, [], ◌∷◌, ◌++◌, ◌≡◌, Bytes, length, take, drop, ltb, leb, ◌==◌, if◌then◌else◌,
}

-- The decimal digits of a number, most significant first, at least `pad` of them. An int has at
-- most 19, so that 20 rounds are enough.
unfoldable pub digits_from : (rounds pad n : ℕ) → Bytes → Bytes
digits_from zero pad n acc = acc
digits_from (suc rounds) (suc pad) n acc = digits_from rounds pad (n / 10) ((b'0' + n % 10) ∷ acc)
digits_from (suc rounds) zero n acc =
    let more = digits_from rounds zero (n / 10) ((b'0' + n % 10) ∷ acc) in
    if n == 0 then acc else more

-- `fmt.Sprintf("%010d", n)`
unfoldable pub ten_digits : ℕ → Bytes
unfolding digits_from
ten_digits n = digits_from 20 10 n []

abbrev pub is_digit : ℕ → Bool
is_digit c = leb b'0' c && leb c b'9'

abbrev pub all_digits : Bytes → Bool
all_digits [] = true
all_digits (c ∷ cs) = is_digit c && all_digits cs

-- `strconv.Atoi` of digits, whose value so far is `n`
abbrev pub atoi : ℕ → Bytes → ℕ
atoi n [] = n
atoi n (c ∷ cs) = atoi (n * 10 + (c - b'0')) cs

abbrev pub byte_at : ℕ → Bytes → ℕ
byte_at i [] = 0
byte_at zero (c ∷ cs) = c
byte_at (suc i) (c ∷ cs) = byte_at i cs

-- What a split function returns: a request for more bytes, with `io.EOF` where there are none; a
-- token with the bytes to advance; an error.
pub data Split : Type 0 where
  more : (at_eof : Bool) → Split
  token : ℕ → Bytes → Split
  wrong : Split

-- `PluginSplit`
unfoldable pub plugin_split : Bytes → Bool → Split
plugin_split dat at_eof =
    let advance = 11 + atoi 0 (take 10 dat) in
    if ltb (length dat) 11
    then more at_eof
    else if not (byte_at 10 dat == b' ')
    then wrong
    else if not (all_digits (take 10 dat))
    then wrong
    else if ltb (length dat) advance
    then more at_eof
    else token advance (drop 11 (take advance dat))

-- The frame of some bytes.
abbrev pub framed : Bytes → Bytes
framed p = ten_digits (length p) ++ b' ' ∷ p

-- utils/sbox with one key, for messages that are not empty: a nonce of 24 bytes and the overhead of
-- nacl's secretbox, 16 bytes, stand before the encrypted message.
abbrev pub overhead : ℕ
overhead = 24 + 16

pub record Sealing : Type 0 where
  pub seal : Bytes → Bytes
  pub unseal : Bytes → Option Bytes
  pub length-seal : (x : ℕ) (p : Bytes) → length (seal (x ∷ p)) ≡ length (x ∷ p) + overhead
  pub unseal-seal : (x : ℕ) (p : Bytes) → unseal (seal (x ∷ p)) ≡ some (x ∷ p)

-- `EncryptWriter.Write`: the bytes for its destination. There may be no key.
unfoldable pub encrypt_write : Option Sealing → Bytes → Bytes
encrypt_write key [] = []
encrypt_write none (x ∷ p) = framed (x ∷ p)
encrypt_write (some k) (x ∷ p) = ten_digits (length (x ∷ p) + overhead) ++ b' ' ∷ k.seal (x ∷ p)

abbrev opened : ℕ → Option Bytes → Split
opened adv none = wrong
opened adv (some dec) = token adv dec

abbrev pub decrypted : Option Sealing → Split → Split
decrypted (some k) (token adv tok) = opened adv (k.unseal tok)
decrypted _ r = r

-- `MakeDecryptSplit`
unfoldable pub decrypt_split : Option Sealing → Bytes → Bool → Split
decrypt_split secret dat at_eof = decrypted secret (plugin_split dat at_eof)

pub record Signing : Type 0 where
  pub sign : Bytes → Bytes
  pub verify : (message signature : Bytes) → Bool
  pub verify-sign : (p : Bytes) → verify p (sign p) ≡ true

-- `SigWriter.Write`: the bytes for its destination
unfoldable pub sign_write : Signing → Bytes → Bytes
sign_write key [] = []
sign_write key (x ∷ p) =
    let signature = key.sign (x ∷ p) in
    ten_digits (length (x ∷ p))
    ++ b' ' ∷ (ten_digits (length signature) ++ b' ' ∷ ((x ∷ p) ++ signature))

-- `MakeSignSplit`
unfoldable pub sign_split : Signing → Bytes → Bool → Split
sign_split key dat at_eof =
    let size = atoi 0 (take 10 dat) in
    let advance = 22 + size + atoi 0 (take 10 (drop 11 dat)) in
    let message = drop 22 (take (22 + size) dat) in
    let signature = drop (22 + size) (take advance dat) in
    if ltb (length dat) 22
    then more at_eof
    else if not (byte_at 10 dat == b' ') || not (byte_at 21 dat == b' ')
    then wrong
    else if not (all_digits (take 10 dat)) || not (all_digits (take 10 (drop 11 dat)))
    then wrong
    else if ltb (length dat) advance
    then more at_eof
    else if key.verify message signature
    then token advance message
    else wrong

-- The split function applied again and again to the bytes of a stream, as a scanner does: the
-- tokens, and the bytes left over. `rounds` bounds the number of tokens.
abbrev pub after_split : Bytes → Split → (Bytes → List Bytes × Bytes) → List Bytes × Bytes
after_split dat (token adv tok) f = let (ts, rest) = f (drop adv dat) in (tok ∷ ts, rest)
after_split dat _ f = ([], dat)

unfoldable pub tokens : (Bytes → Bool → Split) → ℕ → Bytes → List Bytes × Bytes
tokens split zero dat = ([], dat)
tokens split (suc rounds) dat = after_split dat (split dat true) (tokens split rounds)
