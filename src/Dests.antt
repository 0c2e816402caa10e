-- ===== src/Dests.antt =====
-- What the destinations share (store/dests/base.go): the loops that send the messages of a batch and
-- tell the store of each.
--
-- The sending of one message is a function of the outside world, which it changes; `free` only gives
-- buffers back. The callbacks are the answers, in the order of the calls.
pub mod Answers
use skewer.Prelude.{
  ℕ, Bool, true, false, List, [], ◌∷◌, ◌++◌, Bytes, Option, none, some, if◌then◌else◌,
}
use skewer.Prelude.Int.{ℤ}

-- `model.FullMessage`, of which the store and its destinations read these.
pub record FullMessage (Msg : Type 0) : Type 0 where
  pub uid : Bytes
  pub conf_id : Bytes
  pub fields : Option Msg

-- `model.OutputMsg`
pub record OutputMsg (Msg : Type 0) : Type 0 where
  pub message : FullMessage Msg
  pub partition_key : Bytes
  pub partition_number : ℤ
  pub topic : Bytes

pub data Verdict : Type 0 where
  ack nack perm_error : Verdict

-- A call of `ACK`, `NACK` or `PermError`.
pub record Answer : Type 0 where
  pub verdict : Verdict
  pub uid : Bytes

-- How the sending of one message ends; `IsEncodingError` tells the errors apart.
pub data Tried : Type 0 where
  sent encoding_error failed : Tried

-- What a loop leaves: the answers, whether `dofatal` was called, the errors of `c.Sum()`.
pub record Sending (W : Type 0) : Type 0 where
  pub answers : List Answer
  pub fatal : Bool
  pub errors : List Tried
  pub world : W

module _ {Msg : Type 0} where
  -- `NACKAllSlice`
  unfoldable pub nack_all_slice : List (FullMessage Msg) → List Answer
  nack_all_slice [] = []
  nack_all_slice (m ∷ ms) = record { verdict = nack; uid = m.uid } ∷ nack_all_slice ms

  -- `NACKRemaining`
  unfoldable pub nack_remaining : List (OutputMsg Msg) → List Answer
  nack_remaining [] = []
  nack_remaining (o ∷ os) = record { verdict = nack; uid = o.message.uid } ∷ nack_remaining os

module _ {W : Type 0} where
  abbrev pub told : List Answer → List Tried → Sending W → Sending W
  told answers errors r = record r { answers = answers ++ r.answers; errors = errors ++ r.errors }

module _ {W Msg : Type 0} where
  -- The rest of a round of the loop, where `k` is the loop on the messages that remain.
  unfoldable pub after_send :
      Bool → OutputMsg Msg → List (OutputMsg Msg) → Tried × W → (W → Sending W) → Sending W
  unfolding nack_remaining
  after_send ackf o os (sent, w) k =
      told (if ackf then record { verdict = ack; uid = o.message.uid } ∷ [] else []) [] (k w)
  after_send ackf o os (encoding_error, w) k =
      told (record { verdict = perm_error; uid = o.message.uid } ∷ []) (encoding_error ∷ []) (k w)
  after_send ackf o os (failed, w) k = record {
    answers = record { verdict = nack; uid = o.message.uid } ∷ nack_remaining os;
    fatal = true;
    errors = failed ∷ [];
    world = w;
  }

  unfoldable pub send_each :
      Bool → (W → OutputMsg Msg → Tried × W) → W → List (OutputMsg Msg) → Sending W
  unfolding after_send
  send_each ackf f w [] = record { answers = []; fatal = false; errors = []; world = w }
  send_each ackf f w (o ∷ os) = after_send ackf o os (f w o) (λ w'. send_each ackf f w' os)

  -- `ForEach`
  unfoldable pub for_each :
      (W → FullMessage Msg → Tried × W) → Bool → W → List (OutputMsg Msg) → Sending W
  unfolding send_each
  for_each f ackf w msgs = send_each ackf (λ v o. f v o.message) w msgs

  -- `ForEachWithTopic`
  unfoldable pub for_each_with_topic :
      (W → FullMessage Msg → Bytes → Bytes → ℤ → Tried × W)
      → Bool
      → W
      → List (OutputMsg Msg)
      → Sending W
  unfolding send_each
  for_each_with_topic f ackf w msgs =
      send_each ackf (λ v o. f v o.message o.topic o.partition_key o.partition_number) w msgs
