-- ===== src/Forwarder/Once.antt =====
-- Each message of a batch is answered for once.
use skewer.Prelude.{
  ℕ, suc, ◌+◌, ◌≤◌, ◌<◌, Bool, true, false, sym, Option, none, some, List, [], ◌∷◌, ◌++◌, ◌≡◌, refl,
  ap, arith, Bytes, length, equal, ltb, if◌then◌else◌,
}
use skewer.Prelude.Int.{ℤ}
use skewer.Prelude.Outcome.{Outcome, ok, err}
use skewer.Dests.{FullMessage, OutputMsg, Answer, Sending}
use skewer.Dests.Answers.{answered, uids, output_uids, AnswersAll}
use skewer.Javascript.{
  Goja, JsError, FilterResult, pass, dropped, rejected, filter_error, filter_message,
}
use skewer.Forwarder.{
  Treated, skip, answer, output, Batch, find, details, decide, treat_in, created, found,
  treat_fields, add_answer, add_output, treat, record_treated, fwd_each, Forwarded, send_outputs,
  fwd_msgs,
}

abbrev is_err : {E A : Type 0} → Outcome E A → Bool
is_err (ok a) = false
is_err (err e) = true

-- How often a ULID stands in a list.
abbrev pub times : Bytes → List Bytes → ℕ
times u [] = 0
times u (x ∷ xs) = (if equal x u then 1 else 0) + times u xs

pub times-append : (u : Bytes) (xs ys : List Bytes) → times u (xs ++ ys) ≡ times u xs + times u ys
times-append u [] ys = omega arith
times-append u (x ∷ xs) ys = omega (arith, times-append u xs ys)

pub answered-append : (a b : List Answer) → answered (a ++ b) ≡ answered a ++ answered b
answered-append [] b = refl
answered-append (x ∷ a) b = ap (◌∷◌ x.uid) (answered-append a b)

module _ {Env W Msg : Type 0} where
  answered-send_outputs :
      (send : W → List (OutputMsg Msg) → Sending W) (w : W) (b : Batch Env Msg)
      (os : List (OutputMsg Msg))
      → ((v : W) (os' : List (OutputMsg Msg)) → AnswersAll os' (send v os'))
      → (u : Bytes)
      → times u (answered (send_outputs send w b os).answers)
        ≡ times u (answered b.answers) + times u (output_uids os)
  unfolding send_outputs
  answered-send_outputs send w b [] h u = omega arith
  answered-send_outputs send w b (o ∷ os) h u =
      rw
        (
          answered-append b.answers (send w (o ∷ os)).answers,
          (h w (o ∷ os)).0,
          times-append u (answered b.answers) (output_uids (o ∷ os)),
        )
        refl

module _ {Config Env Msg Val : Type 0} (g : Goja Config Env Msg Val) where
  -- A message goes out under its own ULID.
  abbrev Keeps : FullMessage Msg → Treated Msg → Type 0
  Keeps m skip = Unit
  Keeps m (answer v) = Unit
  Keeps m (output o) = o.message.uid ≡ m.uid

  decide-Keeps :
      (m : FullMessage Msg) (t k : Bytes) (n : ℤ) (r : Outcome JsError FilterResult) (fields : Msg)
      → Keeps m (decide g m t k n r fields)
  unfolding decide
  decide-Keeps m t k n (err e) fields = tt
  decide-Keeps m t k n (ok dropped) fields = tt
  decide-Keeps m t k n (ok rejected) fields = tt
  decide-Keeps m t k n (ok filter_error) fields = tt
  decide-Keeps m t k n (ok pass) fields = refl

  treat_in-Keeps :
      (wants : Bool) (m : FullMessage Msg) (fields : Msg) (envs : List (Bytes × Env)) (e : Env)
      → Keeps m (treat_in g wants m fields envs e).0
  unfolding treat_in
  treat_in-Keeps wants m fields envs e =
      let d = details g wants e fields in
      let r = filter_message g d.3 fields in decide-Keeps m d.0 d.1 d.2 r.0 r.1

  found-Keeps :
      (wants : Bool) (m : FullMessage Msg) (fields : Msg) (envs : List (Bytes × Env))
      (config : Option Config) (e : Option Env)
      → Keeps m (found g wants m fields envs config e).0
  unfolding found created
  found-Keeps wants m fields envs config (some e) = treat_in-Keeps wants m fields envs e
  found-Keeps wants m fields envs none none = tt
  found-Keeps wants m fields envs (some c) none = treat_in-Keeps wants m fields envs (g.new_env c)

  treat_fields-Keeps :
      (wants : Bool) (m : FullMessage Msg) (envs : List (Bytes × Env)) (config : Option Config)
      (fields : Option Msg)
      → Keeps m (treat_fields g wants m envs config fields).0
  unfolding treat_fields
  treat_fields-Keeps wants m envs config none = tt
  treat_fields-Keeps wants m envs config (some fields) =
      found-Keeps wants m fields envs config (find m.conf_id envs)

  treat-Keeps :
      (wants : Bool) (m : FullMessage Msg) (envs : List (Bytes × Env)) (config : Option Config)
      → Keeps m (treat g wants m envs config).0
  unfolding treat
  treat-Keeps wants m envs config = treat_fields-Keeps wants m envs config m.fields

  -- The environment of a configuration: the one that is kept, or a new one where `GetSyslogConfig`
  -- has the configuration.
  abbrev pub env_of : Option Config → Option Env → Option Env
  env_of config (some e) = some e
  env_of (some c) none = some (g.new_env c)
  env_of none none = none

  abbrev filter_fails : Bool → Msg → Option Env → Bool
  filter_fails wants fields none = false
  filter_fails wants fields (some e) =
      is_err (filter_message g (details g wants e fields).3 fields).0

  -- The message has no fields, or it has an environment in which the filter raises an error.
  abbrev pub unanswered : Bool → Option Msg → Option Env → Bool
  unanswered wants none e = true
  unanswered wants (some fields) e = filter_fails wants fields e

  -- The messages of a batch without fields, and those on which the filter raises an error.
  abbrev pub skipped :
      (FullMessage Msg → Option Config)
      → Bool
      → List (Bytes × Env)
      → List (FullMessage Msg)
      → List Bytes
  skipped config wants envs [] = []
  skipped config wants envs (m ∷ ms) =
      let rest = skipped config wants (treat g wants m envs (config m)).1 ms in
      if unanswered wants m.fields (env_of (config m) (find m.conf_id envs))
      then m.uid ∷ rest
      else rest

  abbrev is_skip : Treated Msg → Bool
  is_skip skip = true
  is_skip (answer v) = false
  is_skip (output o) = false

  decide-is_skip :
      (m : FullMessage Msg) (t k : Bytes) (n : ℤ) (r : Outcome JsError FilterResult) (fields : Msg)
      → is_skip (decide g m t k n r fields) ≡ is_err r
  unfolding decide
  decide-is_skip m t k n (err e) fields = refl
  decide-is_skip m t k n (ok dropped) fields = refl
  decide-is_skip m t k n (ok rejected) fields = refl
  decide-is_skip m t k n (ok filter_error) fields = refl
  decide-is_skip m t k n (ok pass) fields = refl

  treat_in-is_skip :
      (wants : Bool) (m : FullMessage Msg) (fields : Msg) (envs : List (Bytes × Env)) (e : Env)
      → is_skip (treat_in g wants m fields envs e).0 ≡ filter_fails wants fields (some e)
  unfolding treat_in
  treat_in-is_skip wants m fields envs e =
      let d = details g wants e fields in
      let r = filter_message g d.3 fields in decide-is_skip m d.0 d.1 d.2 r.0 r.1

  found-is_skip :
      (wants : Bool) (m : FullMessage Msg) (fields : Msg) (envs : List (Bytes × Env))
      (config : Option Config) (e : Option Env)
      → is_skip (found g wants m fields envs config e).0
        ≡ filter_fails wants fields (env_of config e)
  unfolding found created
  found-is_skip wants m fields envs config (some e) = treat_in-is_skip wants m fields envs e
  found-is_skip wants m fields envs none none = refl
  found-is_skip wants m fields envs (some c) none =
      treat_in-is_skip wants m fields envs (g.new_env c)

  treat_fields-is_skip :
      (wants : Bool) (m : FullMessage Msg) (envs : List (Bytes × Env)) (config : Option Config)
      (fields : Option Msg)
      → is_skip (treat_fields g wants m envs config fields).0
        ≡ unanswered wants fields (env_of config (find m.conf_id envs))
  unfolding treat_fields
  treat_fields-is_skip wants m envs config none = refl
  treat_fields-is_skip wants m envs config (some fields) =
      found-is_skip wants m fields envs config (find m.conf_id envs)

  -- A round does nothing with exactly these messages.
  treat-is_skip :
      (wants : Bool) (m : FullMessage Msg) (envs : List (Bytes × Env)) (config : Option Config)
      → is_skip (treat g wants m envs config).0
        ≡ unanswered wants m.fields (env_of config (find m.conf_id envs))
  unfolding treat
  treat-is_skip wants m envs config = treat_fields-is_skip wants m envs config m.fields

  -- The calls of the store, the messages to send and those skipped are the messages, each once.
  abbrev Accounts : List Bytes → List Bytes → Batch Env Msg → Type 0
  Accounts left all b =
      (u : Bytes)
      → times u (answered b.answers) + times u (output_uids b.outputs) + times u left ≡ times u all

  record_treated-Accounts :
      (size i : ℕ) (m : FullMessage Msg) (left all : List Bytes)
      (t : Treated Msg × List (Bytes × Env)) (k : ℕ → List (Bytes × Env) → Option (Batch Env Msg))
      (skips : Bool)
      → i < size
      → Keeps m t.0
      → is_skip t.0 ≡ skips
      → ((j : ℕ) → j ≤ suc i → (b : Batch Env Msg) × (k j t.1 ≡ some b) × Accounts left all b)
      → (b : Batch Env Msg) × (record_treated g size i m t k ≡ some b)
        × Accounts (if skips then m.uid ∷ left else left) (m.uid ∷ all) b
  unfolding record_treated
  record_treated-Accounts size i m left all (skip, envs) k skips h keeps same rest =
      let (b, e, a) = rest i (omega arith) in (b, e, λ u. rw (sym same) (omega (arith, a u)))
  record_treated-Accounts size i m left all (answer v, envs) k skips h keeps same rest =
      let (b, e, a) = rest i (omega arith) in
      (
        record b { answers = record { verdict = v; uid = m.uid } ∷ b.answers },
        rw (e, record_treated, add_answer) refl,
        λ u. rw (sym same) (omega (arith, a u)),
      )
  record_treated-Accounts size i m left all (output o, envs) k skips h keeps same rest =
      let (b, e, a) = rest (suc i) (omega arith) in
      let fits : ltb i size ≡ true = ground arith in
      (
        record b { outputs = o ∷ b.outputs },
        rw (e, record_treated, fits, add_output) refl,
        λ u. rw (sym same, keeps) (omega (arith, a u)),
      )

  pub fwd_each-Accounts :
      (config : FullMessage Msg → Option Config) (wants : Bool) (size i : ℕ)
      (envs : List (Bytes × Env)) (ms : List (FullMessage Msg))
      → i + length ms ≤ size
      → (b : Batch Env Msg) × (fwd_each g config wants size i envs ms ≡ some b)
        × Accounts (skipped config wants envs ms) (uids ms) b
  unfolding fwd_each
  fwd_each-Accounts config wants size i envs [] h =
      (record { answers = []; outputs = []; envs = envs }, refl, λ u. omega arith)
  fwd_each-Accounts config wants size i envs (m ∷ ms) h =
      record_treated-Accounts size i m _ (uids ms) (treat g wants m envs (config m)) _ _
        (omega arith) (treat-Keeps wants m envs (config m)) (treat-is_skip wants m envs (config m))
        (λ j l.
          fwd_each-Accounts config wants size j (treat g wants m envs (config m)).1 ms
            (omega arith))

  -- From a list of messages that fits the buffer of the forwarder, to a destination that answers for
  -- each message it is given: `fwdMsgs` returns, without an index out of range, and each message is
  -- answered for exactly once, the messages without fields and those on which the filter raises an
  -- error excepted, which are not answered for at all. A message whose configuration cannot be had is
  -- among those that are answered for.
  pub fwd_msgs-once :
      {W : Type 0} (config : FullMessage Msg → Option Config)
      (send : W → List (OutputMsg Msg) → Sending W) (wants : Bool) (size : ℕ)
      (envs : List (Bytes × Env)) (w : W) (ms : List (FullMessage Msg))
      → ((v : W) (os : List (OutputMsg Msg)) → AnswersAll os (send v os))
      → length ms ≤ size
      → (r : Forwarded Env W) × (fwd_msgs g config send wants size envs w ms ≡ some r)
        × ((u : Bytes)
            → times u (answered r.answers) + times u (skipped config wants envs ms)
              ≡ times u (uids ms))
  unfolding fwd_msgs
  fwd_msgs-once config send wants size envs w ms answers h =
      let (b, e, a) = fwd_each-Accounts config wants size 0 envs ms (omega arith) in
      (
        send_outputs send w b b.outputs,
        rw (e, fwd_msgs) refl,
        λ u. omega (arith, a u, answered-send_outputs send w b b.outputs answers u),
      )
