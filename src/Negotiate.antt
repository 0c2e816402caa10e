-- ===== src/Negotiate.antt =====
-- The choice of a content type (utils/negotiate.go), from the ranges that a client accepts and the
-- types that the server offers. A quality is a float64, a parameter with its `<`; `lowest` is -1.
pub mod Choice
use skewer.Prelude.{
  ℕ, ◌+◌, ◌-◌, Bool, true, false, not, ◌&&◌, ◌||◌, Option, none, some, List, [], ◌∷◌, ◌++◌, Bytes,
  codes, equal, length, take, drop, ltb, ◌==◌, if◌then◌else◌,
}
use skewer.Decoders.Texts.{index}
use skewer.Store.Badger.{has_prefix}

pub record Quality (Q : Type 0) : Type 0 where
  pub less : Q → Q → Bool
  pub lowest : Q

pub record AcceptSpec (Q : Type 0) : Type 0 where
  pub range : Bytes
  pub quality : Q
  pub params : List Bytes

-- `Type` and `SubType`, by the place of the slash
unfoldable type_at : Bytes → Option ℕ → Bytes
type_at range none = range
type_at range (some i) = take i range

unfoldable subtype_at : Bytes → Option ℕ → Bytes
subtype_at range none = []
subtype_at range (some i) = if i == length range - 1 then [] else drop (i + 1) range

module _ {Q : Type 0} where
  unfoldable pub type_of : AcceptSpec Q → Bytes
  unfolding type_at
  type_of c = type_at c.range (index b'/' c.range)

  unfoldable pub subtype_of : AcceptSpec Q → Bytes
  unfolding subtype_at
  subtype_of c = subtype_at c.range (index b'/' c.range)

  -- `IsWild`
  unfoldable pub is_wild : AcceptSpec Q → Bool
  is_wild c = equal (type_of c) (codes "*")

  -- `IsHalfWild`
  unfoldable pub is_half_wild : AcceptSpec Q → Bool
  is_half_wild c = not (equal (type_of c) (codes "*")) && equal (subtype_of c) (codes "*")

  -- `Match`
  unfoldable pub matches : AcceptSpec Q → Bytes → Bool
  matches c offer =
      if is_wild c
      then true
      else if is_half_wild c && has_prefix (type_of c ++ codes "/") offer
      then true
      else equal c.range offer

  unfoldable pub is_plain : AcceptSpec Q → Bool
  is_plain c = not (is_wild c) && not (is_half_wild c)

module _ {Q : Type 0} ⦃i : Quality Q⦄ where
  -- `Inferior`
  unfoldable pub inferior : AcceptSpec Q → AcceptSpec Q → Bool
  inferior a c =
      if i.less a.quality c.quality
      then true
      else if is_wild a && not (is_wild c)
      then true
      else if is_wild c && not (is_wild a)
      then false
      else if is_half_wild a && is_wild c
      then false
      else if is_half_wild a && is_plain c
      then true
      else if is_half_wild c && is_wild a
      then true
      else if is_half_wild c && is_plain a
      then false
      else ltb (length a.params) (length c.params)

  -- The best range so far and its offer, after one more pair.
  unfoldable pub try_offer : AcceptSpec Q → Bytes → AcceptSpec Q × Bytes → AcceptSpec Q × Bytes
  try_offer c offer (best, chosen) =
      if not (matches c offer)
      then (best, chosen)
      else if inferior best c
      then (c, offer)
      else (best, chosen)

  unfoldable pub try_offers :
      AcceptSpec Q → List Bytes → AcceptSpec Q × Bytes → AcceptSpec Q × Bytes
  try_offers c [] best = best
  try_offers c (o ∷ os) best = try_offers c os (try_offer c o best)

  unfoldable pub try_specs :
      List (AcceptSpec Q) → List Bytes → AcceptSpec Q × Bytes → AcceptSpec Q × Bytes
  try_specs [] offers best = best
  try_specs (c ∷ cs) offers best = try_specs cs offers (try_offers c offers best)

  abbrev pub nothing_chosen : Bytes → AcceptSpec Q × Bytes
  nothing_chosen default_offer =
      (record { range = default_offer; quality = i.lowest; params = [] }, default_offer)

  -- `negotiateContentType`
  unfoldable pub negotiate_content_type : List (AcceptSpec Q) → List Bytes → Bytes → Bytes
  negotiate_content_type specs offers default_offer =
      (try_specs specs offers (nothing_chosen default_offer)).1
