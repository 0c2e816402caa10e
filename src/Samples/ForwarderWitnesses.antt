-- ===== src/Samples/ForwarderWitnesses.antt =====
-- The theorems on the forwarder and the destinations, applied to a small batch. The filter of the
-- sample reads its verdict off the first byte of a message, and raises an error on an empty one.
use skewer.Prelude.{
  ℕ, zero, ◌+◌, ◌≤◌, true, false, Option, none, some, List, [], ◌∷◌, ◌≡◌, arith, Bytes, codes, All,
  ◌-◌,
}
use skewer.Prelude.Int.{ℤ, pos}
use skewer.Dests.{FullMessage, OutputMsg, Answer, Tried, sent, failed, Sending, for_each}
use skewer.Dests.Answers.{answered, uids, AnswersAll, for_each-AnswersAll}
use skewer.Javascript.{Goja}
use skewer.Forwarder.{Batch, Forwarded, done, batch, fwd_each, fwd_msgs, forward}
use skewer.Forwarder.Once.{times, skipped, fwd_msgs-once}
use skewer.Forwarder.Life.{received, forward_at_most_once}
use skewer.Forwarder.Topics.{Drawn, fwd_each-topics}

abbrev verdict_of : Bytes → Option ℤ
verdict_of [] = none
verdict_of (c ∷ cs) = some (pos (c - b'0'))

abbrev sample_goja : Goja ℕ ℕ Bytes Bytes
sample_goja = record {
  new_env = λ config. config;
  to_js = λ e m. (some m, e);
  from_js = λ e v. (some v, e + 1);
  has_topic = λ e. true;
  has_topic_tmpl = λ e. false;
  has_key = λ e. false;
  has_key_tmpl = λ e. false;
  has_number = λ e. false;
  has_filter = λ e. true;
  js_topic = λ e v. (some v, e);
  topic_tmpl = λ e m. none;
  js_key = λ e v. (none, e);
  key_tmpl = λ e m. none;
  js_number = λ e v. (none, e);
  js_filter = λ e v. (verdict_of v, e);
}

abbrev message : ℕ → Bytes → FullMessage Bytes
message n text = record { uid = n ∷ []; conf_id = codes "c"; fields = some text }

abbrev small_batch : List (FullMessage Bytes)
small_batch =
    message 1 (codes "0") ∷ message 2 (codes "1") ∷ message 3 [] ∷ message 4 (codes "0 x") ∷ []

abbrev config_of : FullMessage Bytes → Option ℕ
config_of m = some 7

-- A destination that fails at its second message.
abbrev try_one : ℕ → FullMessage Bytes → Tried × ℕ
try_one zero m = (sent, 1)
try_one n m = (failed, n)

abbrev send_sample : ℕ → List (OutputMsg Bytes) → Sending ℕ
send_sample = for_each try_one true

for_each-AnswersAll_example :
    AnswersAll
      (record { message = message 1 []; partition_key = []; partition_number = pos 0; topic = [] }
        ∷ [])
      (for_each try_one true 0 (
        record { message = message 1 []; partition_key = []; partition_number = pos 0; topic = [] }
        ∷ []))
for_each-AnswersAll_example = for_each-AnswersAll try_one 0 (
    record { message = message 1 []; partition_key = []; partition_number = pos 0; topic = [] }
    ∷ [])

fwd_msgs-once_example :
    (r : Forwarded ℕ ℕ) × (fwd_msgs sample_goja config_of send_sample true 5 [] 0 small_batch
      ≡ some r)
    × ((u : Bytes)
        → times u (answered r.answers) + times u (skipped sample_goja config_of true [] small_batch)
          ≡ times u (uids small_batch))
fwd_msgs-once_example =
    fwd_msgs-once sample_goja config_of send_sample true 5 [] 0 small_batch
      (for_each-AnswersAll try_one) (omega arith)

forward_at_most_once_example :
    (x : List Answer × ℕ) × (forward sample_goja config_of send_sample true 5 [] 0
        (batch false small_batch ∷ batch true small_batch ∷ done ∷ [])
      ≡ some x)
    × ((u : Bytes)
        → times u (answered x.0)
          ≤ times u (received (batch false small_batch ∷ batch true small_batch ∷ done ∷ [])))
forward_at_most_once_example =
    forward_at_most_once sample_goja config_of send_sample true 5 [] 0
      (batch false small_batch ∷ batch true small_batch ∷ done ∷ []) (for_each-AnswersAll try_one)
      (omega arith)

fwd_each-topics_example :
    (b : Batch ℕ Bytes) × (fwd_each sample_goja config_of true 5 0 [] small_batch ≡ some b)
    × All (Drawn sample_goja config_of [] small_batch) b.outputs
fwd_each-topics_example = fwd_each-topics sample_goja config_of 5 [] small_batch (omega arith)
