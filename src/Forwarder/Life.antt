-- ===== src/Forwarder/Life.antt =====
-- The life of a forwarder: no message is answered for twice.
use skewer.Prelude.{
  ℕ, ◌≤◌, Bool, true, false, Option, some, List, [], ◌∷◌, ◌++◌, ◌≡◌, refl, arith, Bytes, length,
}
use skewer.Dests.{FullMessage, OutputMsg, Answer, Sending, nack_all_slice}
use skewer.Dests.Answers.{answered, uids, AnswersAll, answered-nack_all_slice}
use skewer.Javascript.{Goja}
use skewer.Forwarder.{Forwarded, Event, done, fatal, closed, batch, and_go_on, forward}
use skewer.Forwarder.Once.{times, times-append, answered-append, fwd_msgs-once}

module _ {Msg : Type 0} where
  -- The messages that the forwarder takes before it ends.
  abbrev pub received : List (Event Msg) → List Bytes
  received [] = []
  received (done ∷ es) = []
  received (fatal ∷ es) = []
  received (closed ∷ es) = []
  received (batch true ms ∷ es) = uids ms
  received (batch false ms ∷ es) = uids ms ++ received es

  abbrev pub AllFit : ℕ → List (Event Msg) → Type 0
  AllFit size [] = Unit
  AllFit size (done ∷ es) = AllFit size es
  AllFit size (fatal ∷ es) = AllFit size es
  AllFit size (closed ∷ es) = AllFit size es
  AllFit size (batch stopping ms ∷ es) = (length ms ≤ size) × AllFit size es

module _ {Env W : Type 0} where
  and_go_on_lem :
      (r : Forwarded Env W) (k : List (Bytes × Env) → W → Option (List Answer × W))
      (ms es : List Bytes)
      → ((u : Bytes) → times u (answered r.answers) ≤ times u ms)
      → ((x : List Answer × W) × (k r.envs r.world ≡ some x)
          × ((u : Bytes) → times u (answered x.0) ≤ times u es))
      → (x : List Answer × W) × (and_go_on (some r) k ≡ some x)
        × ((u : Bytes) → times u (answered x.0) ≤ times u (ms ++ es))
  unfolding and_go_on
  and_go_on_lem r k ms es h (x, e, l) = (
    (r.answers ++ x.0, x.1),
    rw (e, and_go_on) refl,
    λ u. rw (answered-append r.answers x.0) (
        omega (
          arith,
          times-append u (answered r.answers) (answered x.0),
          times-append u ms es,
          h u,
          l u,
        )),
  )

module _ {Config Env Msg Val W : Type 0} (g : Goja Config Env Msg Val) where
  -- To a destination that answers once for each message it is given, with a NACK exactly where its
  -- error is fatal, and where no batch is larger than the buffer: on any finite sequence of what
  -- `Forward` selects, it has no index out of range, and the store is told of each message at most as
  -- often as it sent the message out, also where the forwarder stops.
  pub forward_at_most_once :
      (config : FullMessage Msg → Option Config) (send : W → List (OutputMsg Msg) → Sending W)
      (wants : Bool) (size : ℕ) (envs : List (Bytes × Env)) (w : W) (es : List (Event Msg))
      → ((v : W) (os : List (OutputMsg Msg)) → AnswersAll os (send v os))
      → AllFit size es
      → (x : List Answer × W) × (forward g config send wants size envs w es ≡ some x)
        × ((u : Bytes) → times u (answered x.0) ≤ times u (received es))
  unfolding forward
  forward_at_most_once config send wants size envs w [] h f = (([], w), refl, λ u. omega arith)
  forward_at_most_once config send wants size envs w (done ∷ es) h f =
      (([], w), refl, λ u. omega arith)
  forward_at_most_once config send wants size envs w (fatal ∷ es) h f =
      (([], w), refl, λ u. omega arith)
  forward_at_most_once config send wants size envs w (closed ∷ es) h f =
      (([], w), refl, λ u. omega arith)
  forward_at_most_once config send wants size envs w (batch true ms ∷ es) h f =
      ((nack_all_slice ms, w), refl, λ u. rw (answered-nack_all_slice ms) (omega arith))
  forward_at_most_once config send wants size envs w (batch false ms ∷ es) h f =
      let (r, e, once) = fwd_msgs-once g config send wants size envs w ms h f.0 in
      rw e (
        and_go_on_lem r (λ envs' w'. forward g config send wants size envs' w' es) (uids ms)
          (received es) (λ u. omega (arith, once u))
          (forward_at_most_once config send wants size r.envs r.world es h f.1))
