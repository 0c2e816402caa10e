-- ===== src/Relp/State.antt =====
-- The state of a RELP connection: the machine of `newMachine`, the rings of `ackForwarder`, and what
-- `scan` and `handleResponses` keep.
use skewer.Prelude.{
  ℕ, Bool, true, false, ◌&&◌, ◌||◌, Option, none, some, List, [], ◌∷◌, ◌≡◌, Bytes, equal, codes,
  if◌then◌else◌,
}
use skewer.Prelude.Int.{ℤ}

pub data RelpState : Type 0 where
  closed opened : RelpState

abbrev pub same_state : RelpState → RelpState → Bool
same_state closed closed = true
same_state opened opened = true
same_state _ _ = false

-- `fsm.EventDesc`
pub record EventDesc : Type 0 where
  pub name : Bytes
  pub src : RelpState
  pub dst : RelpState

-- What `Event` finds: an event that no row names, one that the state does not have, or the state
-- after it; where that is the same state, it returns `NoTransitionError`.
pub data Fired : Type 0 where
  unknown_event invalid_event : Fired
  to : RelpState → Fired

abbrev named : Bytes → List EventDesc → Bool
named n [] = false
named n (d ∷ ds) = equal d.name n || named n ds

abbrev row : Bytes → RelpState → List EventDesc → Option RelpState
row n s [] = none
row n s (d ∷ ds) = if equal d.name n && same_state d.src s then some d.dst else row n s ds

abbrev pub documented : List EventDesc → RelpState → Bytes → Fired
documented ds s n = elim (row n s ds) [
  | some d ↦ to d
  | none ↦ if named n ds then invalid_event else unknown_event
]

pub record Fsm : Type 0 where
  pub fire : List EventDesc → RelpState → Bytes → Fired
  pub fire_lem : (ds : List EventDesc) (s : RelpState) (n : Bytes) → fire ds s n ≡ documented ds s n

-- The events of `newMachine`.
abbrev pub events : List EventDesc
events =
    record { name = codes "open"; src = closed; dst = opened }
    ∷ record { name = codes "close"; src = opened; dst = closed }
    ∷ record { name = codes "syslog"; src = opened; dst = opened }
    ∷ []

-- A command; the number is none where `Atoi32` gives an error.
pub record Command : Type 0 where
  pub txnr : Option ℤ
  pub command : Bytes
  pub text : Bytes

-- `model.RawTCPMessage`
pub record Raw : Type 0 where
  pub txnr : ℕ
  pub text : Bytes

-- A response of `writeSuccess` or `writeFailure`, or what the parsers say of a message.
pub record Response : Type 0 where
  pub txnr : ℕ
  pub good : Bool

-- What the scanner writes itself.
pub data Reply : Type 0 where
  open_ok : ℕ → Bytes → Reply
  server_close : ℕ → Reply

-- Why `scan` has returned.
pub data Ended : Type 0 where
  badly_formed not_increased unknown_command invalid_command client_closed : Ended

-- Whether `handleResponses` waits for `GetSuccAndFail`, is in the loop `Cooking`, or has returned.
pub data Phase : Type 0 where
  waiting cooking gone : Phase

-- What the goroutines share, and what `handleResponses` keeps; `next` is none for -1. The last three
-- fields record for the reader which messages were received, what the parsers have said of them, and
-- which ones were too large or could not be queued.
pub record Exchange : Type 0 where
  pub raws : List Raw
  pub parsing : List Raw
  pub comm : List ℕ
  pub succ : List ℕ
  pub fail : List ℕ
  pub phase : Phase
  pub next : Option ℕ
  pub successes : ℕ → Option Bool
  pub failures : ℕ → Option Bool
  pub responses : List Response
  pub received : List ℕ
  pub reported : List Response
  pub lost : List ℕ

-- The state of the scanner, where `previous` is none for -1, with the exchange.
pub record Conn : Type 0 where
  pub machine : RelpState
  pub previous : Option ℕ
  pub ended : Option Ended
  pub replies : List Reply
  pub exchange : Exchange
