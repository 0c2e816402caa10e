-- ===== src/Javascript.antt =====
-- What a JavaScript environment says of a message on its way out (javascript/vm.go): the topic, the
-- partition, and whether the message passes.
--
-- goja, its values and the functions of the configuration in it, and text/template are a parameter.
-- A call takes and gives back the environment, whose state it may change. The errors of a call are a
-- list, of which `eerrors.Combine` makes nil where it is empty.
pub mod Topics
use skewer.Prelude.{
  ℕ, ◌-◌, ◌%◌, ◌^◌, Bool, true, false, Option, none, some, List, [], ◌∷◌, ◌++◌, ◌&&◌, ◌||◌, Bytes,
  length, ltb, leb, ◌==◌, if◌then◌else◌,
}
use skewer.Prelude.Int.{ℤ, pos, negsuc, to_int32}
use skewer.Prelude.Outcome.{Outcome, ok, err}

pub record Goja (Config Env Msg Val : Type 0) : Type 0 where
  -- `NewFilterEnvironment`, which sets up what the configuration has
  pub new_env : Config → Env
  -- `toJsMessage` and `fromJsMessage`
  pub to_js : Env → Msg → Option Val × Env
  pub from_js : Env → Val → Option Msg × Env
  -- which of the functions and templates are not nil
  pub has_topic : Env → Bool
  pub has_topic_tmpl : Env → Bool
  pub has_key : Env → Bool
  pub has_key_tmpl : Env → Bool
  pub has_number : Env → Bool
  pub has_filter : Env → Bool
  pub js_topic : Env → Val → Option Bytes × Env
  pub topic_tmpl : Env → Msg → Option Bytes
  pub js_key : Env → Val → Option Bytes × Env
  pub key_tmpl : Env → Msg → Option Bytes
  pub js_number : Env → Val → Option ℤ × Env
  pub js_filter : Env → Val → Option ℤ × Env

pub data JsError : Type 0 where
  new_message executing template_failed invalid_topic to_go invalid_result : JsError

-- `validRune`, of a byte; a byte of 128 or more is part of no rune that it takes
unfoldable pub valid_rune : ℕ → Bool
valid_rune r =
    (leb b'a' r && leb r b'z')
    || (leb b'A' r && leb r b'Z')
    || (leb b'0' r && leb r b'9')
    || r == b'.'
    || r == b'_'
    || r == b'-'

abbrev all_valid : Bytes → Bool
all_valid [] = true
all_valid (c ∷ cs) = valid_rune c && all_valid cs

-- `TopicNameIsValid`, where a name of valid runes alone is valid UTF-8
unfoldable pub topic_name_is_valid : Bytes → Bool
topic_name_is_valid name =
    if length name == 0 then false else if ltb 249 (length name) then false else all_valid name

pub data FilterResult : Type 0 where
  pass dropped rejected filter_error : FilterResult

module _ {Env A : Type 0} where
  unfoldable pub called : A → Option A × Env → A × List JsError × Env
  called zero_value (none, e) = (zero_value, executing ∷ [], e)
  called zero_value (some v, e) = (v, [], e)

module _ {Env Val A : Type 0} where
  -- A function of the configuration, called on the message that `toJsMessage` made.
  unfoldable pub on_message :
      A → (Env → Val → Option A × Env) → Option Val × Env → A × List JsError × Env
  unfolding called
  on_message zero_value call (none, e) = (zero_value, new_message ∷ [], e)
  on_message zero_value call (some v, e) = called zero_value (call e v)

module _ {Env : Type 0} where
  unfoldable pub templated : Option Bytes → List JsError → Env → Bytes × List JsError × Env
  templated none errs e = ([], errs ++ template_failed ∷ [], e)
  templated (some v) errs e = (v, errs, e)

  -- The template, where the function gave nothing.
  unfoldable pub or_template :
      Bool → Option Bytes → Bytes × List JsError × Env → Bytes × List JsError × Env
  unfolding templated
  or_template has made ([], errs, e) = if has then templated made errs e else ([], errs, e)
  or_template has made (c ∷ v, errs, e) = (c ∷ v, errs, e)

  unfoldable pub checked : Bytes × List JsError × Env → Bytes × List JsError × Env
  unfolding topic_name_is_valid valid_rune
  checked ([], errs, e) = ([], errs, e)
  checked (c ∷ v, errs, e) =
      if topic_name_is_valid (c ∷ v) then (c ∷ v, errs, e) else ([], errs ++ invalid_topic ∷ [], e)

module _ {Config Env Msg Val : Type 0} (g : Goja Config Env Msg Val) where
  -- A function of the configuration, where there is one.
  unfoldable pub if_set :
      {A : Type 0} → Bool → A → (Env → Val → Option A × Env) → Env → Msg → A × List JsError × Env
  unfolding on_message
  if_set false zero_value call e m = (zero_value, [], e)
  if_set true zero_value call e m = on_message zero_value call (g.to_js e m)

  -- `Topic`
  unfoldable pub topic : Env → Msg → Bytes × List JsError × Env
  unfolding if_set or_template checked
  topic e m =
      let made = if_set (g.has_topic e) [] g.js_topic e m in
      checked (or_template (g.has_topic_tmpl made.2) (g.topic_tmpl made.2 m) made)

  -- `PartitionKey`
  unfoldable pub partition_key : Env → Msg → Bytes × List JsError × Env
  unfolding if_set or_template
  partition_key e m =
      let made = if_set (g.has_key e) [] g.js_key e m in
      or_template (g.has_key_tmpl made.2) (g.key_tmpl made.2 m) made

  -- `PartitionNumber`
  unfoldable pub partition_number : Env → Msg → ℤ × List JsError × Env
  unfolding if_set to_int32
  partition_number e m =
      let (n, errs, e') = if_set (g.has_number e) (pos 0) g.js_number e m in (to_int32 n, errs, e')

  unfoldable pub exported : Msg → Option Msg × Env → Outcome JsError FilterResult × Msg × Env
  exported m (none, e) = (err to_go, m, e)
  exported m (some r, e) = (ok pass, r, e)

  -- The result of the filter; a message that passes is what the filter has made of it.
  unfoldable pub filtered : Msg → Val → Option ℤ × Env → Outcome JsError FilterResult × Msg × Env
  unfolding exported
  filtered m v (none, e) = (err executing, m, e)
  filtered m v (some (negsuc n), e) = (err invalid_result, m, e)
  filtered m v (some (pos n), e) =
      if n == 1
      then (ok dropped, m, e)
      else if n == 2
      then (ok rejected, m, e)
      else if n == 3
      then (ok filter_error, m, e)
      else if n == 0
      then exported m (g.from_js e v)
      else (err invalid_result, m, e)

  unfoldable pub filter_value : Msg → Option Val × Env → Outcome JsError FilterResult × Msg × Env
  unfolding filtered
  filter_value m (none, e) = (err new_message, m, e)
  filter_value m (some v, e) = filtered m v (g.js_filter e v)

  -- `FilterMessage` of a message that is not nil
  unfoldable pub filter_message : Env → Msg → Outcome JsError FilterResult × Msg × Env
  unfolding filter_value
  filter_message e m = if g.has_filter e then filter_value m (g.to_js e m) else (ok pass, m, e)
