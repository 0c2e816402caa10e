-- ===== src/Javascript/Topics.antt =====
-- The topic of a message is empty or a valid name.
use skewer.Prelude.{true, List, [], ◌∷◌, ◌≡◌, refl, ◌⊎◌, inl, inr, Bytes, Bool-cases}
use skewer.Javascript.{Goja, JsError, topic_name_is_valid, if_set, or_template, checked, topic}

checked-valid :
    {Env : Type 0} (r : Bytes × List JsError × Env)
    → ((checked r).0 ≡ []) ⊎ (topic_name_is_valid (checked r).0 ≡ true)
unfolding checked
checked-valid ([], errs, e) = inl refl
checked-valid (c ∷ v, errs, e) = elim (Bool-cases (topic_name_is_valid (c ∷ v))) [
  | inl good ↦ rw good (inr good)
  | inr bad ↦ rw bad (inl refl)
]

pub topic-valid :
    {Config Env Msg Val : Type 0} (g : Goja Config Env Msg Val) (e : Env) (m : Msg)
    → ((topic g e m).0 ≡ []) ⊎ (topic_name_is_valid (topic g e m).0 ≡ true)
unfolding topic
topic-valid g e m =
    let made = if_set g (g.has_topic e) [] g.js_topic e m in
    checked-valid (or_template (g.has_topic_tmpl made.2) (g.topic_tmpl made.2 m) made)
