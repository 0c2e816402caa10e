-- ===== src/Conf/Destination.antt =====
-- The kinds of destinations (conf/destinations.go). A set of them is the `or` of their masks.
use Prim.Native.Nat.{bit_and}
use mathlib.Core.Bool.{not}
use skewer.Prelude.{
  ℕ, Bool, List, [], ◌∷◌, ◌≡◌, refl, Option, none, some, ◌==◌, if◌then◌else◌, Bytes, codes,
}

pub data Destination : Type 0 where
  kafka udp tcp relp file stderr graylog http nats : Destination
  http_server websocket_server elasticsearch redis : Destination

-- the values of the constants
unfoldable pub mask : Destination → ℕ
mask kafka = 1
mask udp = 2
mask tcp = 4
mask relp = 8
mask file = 16
mask stderr = 32
mask graylog = 64
mask http = 128
mask nats = 256
mask http_server = 512
mask websocket_server = 1024
mask elasticsearch = 2048
mask redis = 4096

-- `RDestinations`
unfoldable pub letter : Destination → ℕ
letter kafka = b'k'
letter udp = b'u'
letter tcp = b't'
letter relp = b'r'
letter file = b'f'
letter stderr = b's'
letter graylog = b'g'
letter http = b'h'
letter http_server = b'e'
letter nats = b'n'
letter websocket_server = b'w'
letter elasticsearch = b'l'
letter redis = b'd'

-- `DestinationNames`
unfoldable pub name : Destination → Bytes
name kafka = codes "kafka"
name udp = codes "udp"
name tcp = codes "tcp"
name relp = codes "relp"
name file = codes "file"
name stderr = codes "stderr"
name graylog = codes "graylog"
name http = codes "http"
name http_server = codes "httpserver"
name nats = codes "nats"
name websocket_server = codes "websocketserver"
name elasticsearch = codes "elasticsearch"
name redis = codes "redis"

-- The values of the map `Destinations`, in one order; Go ranges over them in any.
abbrev pub destinations : List Destination
destinations =
    kafka ∷ udp ∷ tcp ∷ relp ∷ file ∷ stderr ∷ graylog ∷ http ∷ nats ∷ http_server
    ∷ websocket_server ∷ elasticsearch ∷ redis ∷ []

-- `dests.Has(one)`
unfoldable pub has : ℕ → Destination → Bool
unfolding mask
has dests one = not (bit_and dests (mask one) == 0)

unfoldable pub selected : ℕ → List Destination → List Destination
selected dests [] = []
selected dests (d ∷ ds) = if has dests d then d ∷ selected dests ds else selected dests ds

-- `dests.Iterate()`
unfoldable pub iterate : ℕ → List Destination
unfolding selected has
iterate dests = if dests == 0 then stderr ∷ [] else selected dests destinations

of_letter : ℕ → Option Destination
of_letter c =
    if c == b'k'
    then some kafka
    else if c == b'u'
    then some udp
    else if c == b't'
    then some tcp
    else if c == b'r'
    then some relp
    else if c == b'f'
    then some file
    else if c == b's'
    then some stderr
    else if c == b'g'
    then some graylog
    else if c == b'h'
    then some http
    else if c == b'e'
    then some http_server
    else if c == b'n'
    then some nats
    else if c == b'w'
    then some websocket_server
    else if c == b'l'
    then some elasticsearch
    else if c == b'd'
    then some redis
    else none

of_letter-letter : (d : Destination) → of_letter (letter d) ≡ some d
unfolding of_letter letter
of_letter-letter kafka = refl
of_letter-letter _ = refl

-- No two destinations share a letter.
pub letter-injective : (d e : Destination) → letter d ≡ letter e → d ≡ e
letter-injective d e h = cc (of_letter-letter d, of_letter-letter e)
