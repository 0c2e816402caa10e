-- ===== src/Forwarder/Topics.antt =====
-- The topics of the messages that a forwarder sends.
use skewer.Prelude.{
  ℕ, suc, ◌≤◌, Bool, true, false, Option, none, some, List, [], ◌∷◌, ◌≡◌, refl, ◌⊎◌, inl, inr,
  arith, Bytes, length, All, ltb, codes,
}
use skewer.Prelude.Int.{ℤ}
use skewer.Prelude.Outcome.{Outcome, ok, err}
use skewer.Dests.{FullMessage, OutputMsg, Answer}
use skewer.Forwarder.Once.{env_of, fwd_each-Accounts}
use mathlib.Core.Path.{subst}
use skewer.Javascript.{
  Goja, JsError, FilterResult, pass, dropped, rejected, filter_error, topic, topic_name_is_valid,
  valid_rune, filter_message,
}
use skewer.Javascript.Topics.{topic-valid}
use skewer.Forwarder.{
  Treated, skip, answer, output, Batch, or_default, find, details, decide, treat_in, created, found,
  treat_fields, treat, add_answer, add_output, record_treated, fwd_each,
}

-- From what the environment gives: its topic, or the default one where it gives none.
abbrev pub Given : Bytes → Bytes → Type 0
Given given t = (given ≡ [] → t ≡ codes "default-topic") × (1 ≤ length given → t ≡ given)

or_default-Given : (t : Bytes) → Given t (or_default t)
or_default-Given [] = (λ h. refl, λ l. absurd (omega arith))
or_default-Given (c ∷ t) = (λ h. absurd cc, λ l. refl)

or_default-valid :
    (t : Bytes)
    → (t ≡ []) ⊎ (topic_name_is_valid t ≡ true)
    → topic_name_is_valid (or_default t) ≡ true
unfolding topic_name_is_valid valid_rune
or_default-valid [] h = refl
or_default-valid (c ∷ t) (inl e) = absurd (cc)
or_default-valid (c ∷ t) (inr valid) = valid

module _ {Msg : Type 0} where
  -- The message `o` is sent for `m`, whose environment gives the topic `given`.
  pub record Topical (given : Bytes) (m : FullMessage Msg) (o : OutputMsg Msg) : Type 0 where
    pub same_uid : o.message.uid ≡ m.uid
    pub valid : topic_name_is_valid o.topic ≡ true
    pub from_given : Given given o.topic

  abbrev Sends : (OutputMsg Msg → Type 0) → Treated Msg → Type 0
  Sends P skip = Unit
  Sends P (answer v) = Unit
  Sends P (output o) = P o

  All-map :
      (P R : OutputMsg Msg → Type 0) (os : List (OutputMsg Msg))
      → ((o : OutputMsg Msg) → P o → R o)
      → All P os
      → All R os
  All-map P R [] f h = tt
  All-map P R (o ∷ os) f (h, hs) = (f o h, All-map P R os f hs)

module _ {Env Msg : Type 0} where
  abbrev AllSent : (OutputMsg Msg → Type 0) → Option (Batch Env Msg) → Type 0
  AllSent P none = Unit
  AllSent P (some b) = All P b.outputs

  AllSent-map :
      (P R : OutputMsg Msg → Type 0) (b : Option (Batch Env Msg))
      → ((o : OutputMsg Msg) → P o → R o)
      → AllSent P b
      → AllSent R b
  AllSent-map P R none f h = tt
  AllSent-map P R (some b) f h = All-map P R b.outputs f h

  add_answer-AllSent :
      (P : OutputMsg Msg → Type 0) (a : Answer) (b : Option (Batch Env Msg))
      → AllSent P b
      → AllSent P (add_answer a b)
  unfolding add_answer
  add_answer-AllSent P a none h = tt
  add_answer-AllSent P a (some b) h = h

  add_output-AllSent :
      (P : OutputMsg Msg → Type 0) (fits : Bool) (o : OutputMsg Msg) (b : Option (Batch Env Msg))
      → P o
      → AllSent P b
      → AllSent P (add_output fits o b)
  unfolding add_output
  add_output-AllSent P true o (some b) n h = (n, h)
  add_output-AllSent P true o none n h = tt
  add_output-AllSent P false o b n h = tt

module _ {Config Env Msg Val : Type 0} (g : Goja Config Env Msg Val) where
  decide-Sends :
      (m : FullMessage Msg) (t k : Bytes) (n : ℤ) (r : Outcome JsError FilterResult) (fields : Msg)
      (given : Bytes)
      → topic_name_is_valid t ≡ true
      → Given given t
      → Sends (Topical given m) (decide g m t k n r fields)
  unfolding decide
  decide-Sends m t k n (err e) fields given h f = tt
  decide-Sends m t k n (ok dropped) fields given h f = tt
  decide-Sends m t k n (ok rejected) fields given h f = tt
  decide-Sends m t k n (ok filter_error) fields given h f = tt
  decide-Sends m t k n (ok pass) fields given h f = record {
    same_uid = refl;
    valid = h;
    from_given = f;
  }

  treat_in-Sends :
      (m : FullMessage Msg) (fields : Msg) (envs : List (Bytes × Env)) (e : Env)
      → Sends (Topical (topic g e fields).0 m) (treat_in g true m fields envs e).0
  unfolding treat_in details
  treat_in-Sends m fields envs e =
      let d = details g true e fields in
      let r = filter_message g d.3 fields in
      let given = (topic g e fields).0 in
      decide-Sends m d.0 d.1 d.2 r.0 r.1 given (or_default-valid given (topic-valid g e fields))
        (or_default-Given given)

  -- A message without fields or environment sends nothing.
  abbrev pub SentFor : FullMessage Msg → Option Msg → Option Env → OutputMsg Msg → Type 0
  SentFor m (some fields) (some e) o = Topical (topic g e fields).0 m o
  SentFor m _ _ o = ⊥

  found-Sends :
      (m : FullMessage Msg) (fields : Msg) (envs : List (Bytes × Env)) (config : Option Config)
      (e : Option Env)
      → Sends (SentFor m (some fields) (env_of g config e)) (found g true m fields envs config e).0
  unfolding found created
  found-Sends m fields envs config (some e) = treat_in-Sends m fields envs e
  found-Sends m fields envs none none = tt
  found-Sends m fields envs (some c) none = treat_in-Sends m fields envs (g.new_env c)

  treat_fields-Sends :
      (m : FullMessage Msg) (envs : List (Bytes × Env)) (config : Option Config)
      (fields : Option Msg)
      → Sends
          (SentFor m fields (env_of g config (find m.conf_id envs)))
          (treat_fields g true m envs config fields).0
  unfolding treat_fields
  treat_fields-Sends m envs config none = tt
  treat_fields-Sends m envs config (some fields) =
      found-Sends m fields envs config (find m.conf_id envs)

  treat-Sends :
      (m : FullMessage Msg) (envs : List (Bytes × Env)) (config : Option Config)
      → Sends
          (SentFor m m.fields (env_of g config (find m.conf_id envs)))
          (treat g true m envs config).0
  unfolding treat
  treat-Sends m envs config = treat_fields-Sends m envs config m.fields

  -- The message to be sent stands for one of the batch, in the environment that its configuration has
  -- when its turn comes.
  abbrev pub Drawn :
      (FullMessage Msg → Option Config)
      → List (Bytes × Env)
      → List (FullMessage Msg)
      → OutputMsg Msg
      → Type 0
  Drawn config envs [] o = ⊥
  Drawn config envs (m ∷ ms) o =
      SentFor m m.fields (env_of g (config m) (find m.conf_id envs)) o
      ⊎ Drawn config (treat g true m envs (config m)).1 ms o

  record_treated-AllSent :
      (P R : OutputMsg Msg → Type 0) (size i : ℕ) (m : FullMessage Msg)
      (t : Treated Msg × List (Bytes × Env)) (k : ℕ → List (Bytes × Env) → Option (Batch Env Msg))
      → Sends P t.0
      → ((j : ℕ) → AllSent R (k j t.1))
      → AllSent (λ o. P o ⊎ R o) (record_treated g size i m t k)
  unfolding record_treated
  record_treated-AllSent P R size i m (skip, envs) k h rest =
      AllSent-map R (λ o. P o ⊎ R o) (k i envs) (λ o r. inr r) (rest i)
  record_treated-AllSent P R size i m (answer v, envs) k h rest =
      add_answer-AllSent (λ o. P o ⊎ R o) (record { verdict = v; uid = m.uid }) (k i envs)
        (AllSent-map R (λ o. P o ⊎ R o) (k i envs) (λ o r. inr r) (rest i))
  record_treated-AllSent P R size i m (output o, envs) k h rest =
      add_output-AllSent (λ o. P o ⊎ R o) (ltb i size) o (k (suc i) envs) (inl h)
        (AllSent-map R (λ o. P o ⊎ R o) (k (suc i) envs) (λ o r. inr r) (rest (suc i)))

  fwd_each-AllSent :
      (config : FullMessage Msg → Option Config) (size i : ℕ) (envs : List (Bytes × Env))
      (ms : List (FullMessage Msg))
      → AllSent (Drawn config envs ms) (fwd_each g config true size i envs ms)
  unfolding fwd_each
  fwd_each-AllSent config size i envs [] = tt
  fwd_each-AllSent config size i envs (m ∷ ms) =
      record_treated-AllSent (SentFor m m.fields (env_of g (config m) (find m.conf_id envs)))
        (Drawn config (treat g true m envs (config m)).1 ms) size i m
        (treat g true m envs (config m)) _ (treat-Sends m envs (config m))
        (λ j. fwd_each-AllSent config size j (treat g true m envs (config m)).1 ms)

  -- Of a batch that fits the buffer, for a destination that uses topics, every message to be sent
  -- stands for a message of the batch with fields and an environment, under the same ULID, and has a
  -- valid topic: the one that `Topic` gives for these fields in this environment, or
  -- `default-topic` where it gives none.
  pub fwd_each-topics :
      (config : FullMessage Msg → Option Config) (size : ℕ) (envs : List (Bytes × Env))
      (ms : List (FullMessage Msg))
      → length ms ≤ size
      → (b : Batch Env Msg) × (fwd_each g config true size 0 envs ms ≡ some b)
        × All (Drawn config envs ms) b.outputs
  fwd_each-topics config size envs ms h =
      let (b, e, _) = fwd_each-Accounts g config true size 0 envs ms (omega arith) in
      (b, e, subst (AllSent (Drawn config envs ms)) e (fwd_each-AllSent config size 0 envs ms))
