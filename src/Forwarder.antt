-- ===== src/Forwarder.antt =====
-- The forwarder of a destination (store/forwarder.go): it filters the batches that the store sends
-- out, and hands to the destination what passes.
--
-- The answer of `GetSyslogConfig` is a function of the message. The log and the counters
-- are left out.
pub mod Once
pub mod Life
pub mod Topics
use skewer.Prelude.{
  ℕ, suc, Bool, true, false, ◌||◌, Option, none, some, List, [], ◌∷◌, ◌++◌, Bytes, length, equal,
  ltb, if◌then◌else◌, codes, map, is_some,
}
use skewer.Prelude.Int.{ℤ, pos}
use skewer.Prelude.Outcome.{Outcome, ok, err}
use skewer.Conf.Destination.{Destination, kafka, nats, redis}
use skewer.Dests.{
  FullMessage, OutputMsg, Verdict, ack, nack, perm_error, Answer, Tried, Sending, nack_all_slice,
}
use skewer.Javascript.{
  Goja, JsError, FilterResult, pass, dropped, rejected, filter_error, topic, partition_key,
  partition_number, filter_message,
}

-- What a round of `fwdMsgs` does with a message: nothing, a call of the store, a message for the
-- destination.
pub data Treated (Msg : Type 0) : Type 0 where
  skip : Treated Msg
  answer : Verdict → Treated Msg
  output : OutputMsg Msg → Treated Msg

-- What `fwdMsgs` has done before it sends.
pub record Batch (Env Msg : Type 0) : Type 0 where
  pub answers : List Answer
  pub outputs : List (OutputMsg Msg)
  pub envs : List (Bytes × Env)

-- The types of destinations that use the topic and the partition.
unfoldable pub wants_topic : Destination → Bool
wants_topic kafka = true
wants_topic nats = true
wants_topic redis = true
wants_topic _ = false

abbrev pub or_default : Bytes → Bytes
or_default [] = codes "default-topic"
or_default (c ∷ t) = c ∷ t

module _ {Env : Type 0} where
  abbrev pub find : Bytes → List (Bytes × Env) → Option Env
  find k [] = none
  find k ((j, e) ∷ envs) = if equal j k then some e else find k envs

  abbrev pub keep_env : Bytes → Env → List (Bytes × Env) → List (Bytes × Env)
  keep_env k e envs = (k, e) ∷ envs

module _ {Env Msg : Type 0} where
  unfoldable pub add_answer : Answer → Option (Batch Env Msg) → Option (Batch Env Msg)
  add_answer a none = none
  add_answer a (some b) = some (record b { answers = a ∷ b.answers })

  -- `fwder.outputMsgs[i] = o`, where the array has the index or not
  unfoldable pub add_output : Bool → OutputMsg Msg → Option (Batch Env Msg) → Option (Batch Env Msg)
  add_output true o (some b) = some (record b { outputs = o ∷ b.outputs })
  add_output _ o _ = none

module _ {Config Env Msg Val : Type 0} (g : Goja Config Env Msg Val) where
  -- The topic, the key and the number of the partition.
  unfoldable pub details : Bool → Env → Msg → Bytes × Bytes × ℤ × Env
  details false e m = ([], [], pos 0, e)
  details true e m =
      let (t, _, e1) = topic g e m in
      let (k, _, e2) = partition_key g e1 m in
      let (n, _, e3) = partition_number g e2 m in (or_default t, k, n, e3)

  unfoldable pub decide :
      FullMessage Msg → Bytes → Bytes → ℤ → Outcome JsError FilterResult → Msg → Treated Msg
  decide m t k n (err e) fields = skip
  decide m t k n (ok dropped) fields = answer ack
  decide m t k n (ok rejected) fields = answer nack
  decide m t k n (ok filter_error) fields = answer perm_error
  decide m t k n (ok pass) fields = output (record {
    message = record m { fields = some fields };
    partition_key = k;
    partition_number = n;
    topic = t;
  })

  -- The rest of a round, in the environment of the message.
  unfoldable pub treat_in :
      Bool → FullMessage Msg → Msg → List (Bytes × Env) → Env → Treated Msg × List (Bytes × Env)
  unfolding details decide
  treat_in wants m fields envs e =
      let (t, k, n, e1) = details wants e fields in
      let (r, fields', e2) = filter_message g e1 fields in
      (decide m t k n r fields', keep_env m.conf_id e2 envs)

  -- The environment is created at the first message of a configuration.
  unfoldable pub created :
      Bool
      → FullMessage Msg
      → Msg
      → List (Bytes × Env)
      → Option Config
      → Treated Msg × List (Bytes × Env)
  unfolding treat_in
  created wants m fields envs none = (answer perm_error, envs)
  created wants m fields envs (some config) = treat_in wants m fields envs (g.new_env config)

  unfoldable pub found :
      Bool
      → FullMessage Msg
      → Msg
      → List (Bytes × Env)
      → Option Config
      → Option Env
      → Treated Msg × List (Bytes × Env)
  unfolding treat_in created
  found wants m fields envs config (some e) = treat_in wants m fields envs e
  found wants m fields envs config none = created wants m fields envs config

  unfoldable pub treat_fields :
      Bool
      → FullMessage Msg
      → List (Bytes × Env)
      → Option Config
      → Option Msg
      → Treated Msg × List (Bytes × Env)
  unfolding found
  treat_fields wants m envs config none = (skip, envs)
  treat_fields wants m envs config (some fields) =
      found wants m fields envs config (find m.conf_id envs)

  -- One round of the loop of `fwdMsgs`; `config` is what `GetSyslogConfig` answers.
  unfoldable pub treat :
      Bool → FullMessage Msg → List (Bytes × Env) → Option Config → Treated Msg × List (Bytes × Env)
  unfolding treat_fields
  treat wants m envs config = treat_fields wants m envs config m.fields

  unfoldable pub record_treated :
      ℕ
      → ℕ
      → FullMessage Msg
      → Treated Msg × List (Bytes × Env)
      → (ℕ → List (Bytes × Env) → Option (Batch Env Msg))
      → Option (Batch Env Msg)
  unfolding add_answer add_output
  record_treated size i m (skip, envs) k = k i envs
  record_treated size i m (answer v, envs) k =
      add_answer (record { verdict = v; uid = m.uid }) (k i envs)
  record_treated size i m (output o, envs) k = add_output (ltb i size) o (k (suc i) envs)

  -- The loop of `fwdMsgs`. `fwder.outputMsgs` has `size` entries, and `none` is the panic of an index
  -- that it does not have.
  unfoldable pub fwd_each :
      (FullMessage Msg → Option Config)
      → Bool
      → ℕ
      → ℕ
      → List (Bytes × Env)
      → List (FullMessage Msg)
      → Option (Batch Env Msg)
  unfolding record_treated treat
  fwd_each config wants size i envs [] = some (record { answers = []; outputs = []; envs = envs })
  fwd_each config wants size i envs (m ∷ ms) =
      record_treated size i m (treat wants m envs (config m))
        (λ i' envs'. fwd_each config wants size i' envs' ms)

-- What a batch leaves.
pub record Forwarded (Env W : Type 0) : Type 0 where
  pub answers : List Answer
  pub fatal : Bool
  pub envs : List (Bytes × Env)
  pub world : W

-- What the select of `Forward` takes: the end of the context, a fatal error of the destination, the
-- end of the channel, or a batch, with what `stopping` holds by then.
pub data Event (Msg : Type 0) : Type 0 where
  done fatal closed : Event Msg
  batch : (stopping : Bool) → List (FullMessage Msg) → Event Msg

module _ {Env W Msg : Type 0} where
  unfoldable pub send_outputs :
      (W → List (OutputMsg Msg) → Sending W)
      → W
      → Batch Env Msg
      → List (OutputMsg Msg)
      → Forwarded Env W
  send_outputs send w b [] = record { answers = b.answers; fatal = false; envs = b.envs; world = w }
  send_outputs send w b (o ∷ os) =
      let r = send w (o ∷ os) in
      record { answers = b.answers ++ r.answers; fatal = r.fatal; envs = b.envs; world = r.world }

module _ {Env W : Type 0} where
  unfoldable pub and_go_on :
      Option (Forwarded Env W)
      → (List (Bytes × Env) → W → Option (List Answer × W))
      → Option (List Answer × W)
  and_go_on none k = none
  and_go_on (some r) k = elim (k r.envs r.world) [
    | none ↦ none
    | some (answers, w) ↦ some (r.answers ++ answers, w)
  ]

module _ {Config Env Msg Val W : Type 0} (g : Goja Config Env Msg Val) where
  -- `fwdMsgs`, which sends nothing where no message passes
  unfoldable pub fwd_msgs :
      (FullMessage Msg → Option Config)
      → (W → List (OutputMsg Msg) → Sending W)
      → Bool
      → ℕ
      → List (Bytes × Env)
      → W
      → List (FullMessage Msg)
      → Option (Forwarded Env W)
  unfolding fwd_each send_outputs
  fwd_msgs config send wants size envs w msgs = elim (fwd_each g config wants size 0 envs msgs) [
    | none ↦ none
    | some b ↦ some (send_outputs send w b b.outputs)
  ]

  -- The loop of `Forward`: all that it tells the store.
  unfoldable pub forward :
      (FullMessage Msg → Option Config)
      → (W → List (OutputMsg Msg) → Sending W)
      → Bool
      → ℕ
      → List (Bytes × Env)
      → W
      → List (Event Msg)
      → Option (List Answer × W)
  unfolding fwd_msgs and_go_on
  forward config send wants size envs w [] = some ([], w)
  forward config send wants size envs w (done ∷ es) = some ([], w)
  forward config send wants size envs w (fatal ∷ es) = some ([], w)
  forward config send wants size envs w (closed ∷ es) = some ([], w)
  forward config send wants size envs w (batch true msgs ∷ es) = some (nack_all_slice msgs, w)
  forward config send wants size envs w (batch false msgs ∷ es) =
      and_go_on (fwd_msgs config send wants size envs w msgs)
        (λ envs' w'. forward config send wants size envs' w' es)
