-- ===== src/Dests/Answers.antt =====
-- The answers of the loops that send: one for each message.
use skewer.Prelude.{Bool, true, false, List, [], ◌∷◌, ◌≡◌, refl, ap, Bytes, ◌||◌}
use skewer.Prelude.Int.{ℤ}
use skewer.Dests.{
  FullMessage, OutputMsg, Verdict, nack, Answer, Tried, sent, encoding_error, failed, Sending,
  nack_all_slice, nack_remaining, after_send, send_each, for_each, for_each_with_topic,
}

abbrev pub answered : List Answer → List Bytes
answered [] = []
answered (a ∷ rest) = a.uid ∷ answered rest

module _ {Msg : Type 0} where
  abbrev pub uids : List (FullMessage Msg) → List Bytes
  uids [] = []
  uids (m ∷ ms) = m.uid ∷ uids ms

  abbrev pub output_uids : List (OutputMsg Msg) → List Bytes
  output_uids [] = []
  output_uids (o ∷ os) = o.message.uid ∷ output_uids os

  pub answered-nack_remaining :
      (os : List (OutputMsg Msg)) → answered (nack_remaining os) ≡ output_uids os
  unfolding nack_remaining
  answered-nack_remaining [] = refl
  answered-nack_remaining (o ∷ os) = ap (◌∷◌ o.message.uid) (answered-nack_remaining os)

  pub answered-nack_all_slice :
      (ms : List (FullMessage Msg)) → answered (nack_all_slice ms) ≡ uids ms
  unfolding nack_all_slice
  answered-nack_all_slice [] = refl
  answered-nack_all_slice (m ∷ ms) = ap (◌∷◌ m.uid) (answered-nack_all_slice ms)

abbrev refused : Verdict → Bool
refused nack = true
refused _ = false

abbrev pub any_nack : List Answer → Bool
any_nack [] = false
any_nack (a ∷ rest) = refused a.verdict || any_nack rest

module _ {W Msg : Type 0} where
  -- Each message has one answer, in order, and one is refused exactly when the destination fails.
  abbrev pub AnswersAll : List (OutputMsg Msg) → Sending W → Type 0
  AnswersAll os r = (answered r.answers ≡ output_uids os) × (any_nack r.answers ≡ r.fatal)

  after_send-AnswersAll :
      (o : OutputMsg Msg) (os : List (OutputMsg Msg)) (r : Tried × W) (k : W → Sending W)
      → ((w : W) → AnswersAll os (k w))
      → AnswersAll (o ∷ os) (after_send true o os r k)
  unfolding after_send
  after_send-AnswersAll o os (sent, w) k h = (ap (◌∷◌ o.message.uid) (h w).0, (h w).1)
  after_send-AnswersAll o os (encoding_error, w) k h = (ap (◌∷◌ o.message.uid) (h w).0, (h w).1)
  after_send-AnswersAll o os (failed, w) k h =
      (ap (◌∷◌ o.message.uid) (answered-nack_remaining os), refl)

  send_each-AnswersAll :
      (f : W → OutputMsg Msg → Tried × W) (w : W) (os : List (OutputMsg Msg))
      → AnswersAll os (send_each true f w os)
  unfolding send_each
  send_each-AnswersAll f w [] = (refl, refl)
  send_each-AnswersAll f w (o ∷ os) =
      after_send-AnswersAll o os (f w o) (λ w'. send_each true f w' os)
        (λ w'. send_each-AnswersAll f w' os)

  -- `ForEach` of a destination that acknowledges: each message of the batch is answered for exactly
  -- once, in order, whatever the sending of each gives; and some message is refused exactly
  -- when the destination fails.
  pub for_each-AnswersAll :
      (f : W → FullMessage Msg → Tried × W) (w : W) (os : List (OutputMsg Msg))
      → AnswersAll os (for_each f true w os)
  unfolding for_each
  for_each-AnswersAll f w os = send_each-AnswersAll (λ v o. f v o.message) w os

  pub for_each_with_topic-AnswersAll :
      (f : W → FullMessage Msg → Bytes → Bytes → ℤ → Tried × W) (w : W) (os : List (OutputMsg Msg))
      → AnswersAll os (for_each_with_topic f true w os)
  unfolding for_each_with_topic
  for_each_with_topic-AnswersAll f w os =
      send_each-AnswersAll (λ v o. f v o.message o.topic o.partition_key o.partition_number) w os
