-- ===== src/Negotiate/Choice.antt =====
-- The chosen type is an offer that the client accepts, where there is one.
use mathlib.Core.Path.{subst}
use skewer.Prelude.{
  Bool, true, false, not, ◌&&◌, ◌||◌, List, [], ◌∷◌, ◌≡◌, refl, ap, ◌∙◌, arith, Bytes, equal_iff,
  elem, All, if◌then◌else◌,
}
use skewer.Negotiate.{
  Quality, AcceptSpec, is_wild, is_plain, matches, inferior, try_offer, try_offers, try_specs,
  nothing_chosen, negotiate_content_type,
}

or_false : (x : Bool) → x ≡ (x || false)
or_false x = ground arith

or_assoc : (x y z : Bool) → ((x || y) || z) ≡ (x || (y || z))
or_assoc x y z = ground arith

module _ {Q : Type 0} where
  -- Some offer matches the range; some range matches the offer.
  abbrev pub some_offer : AcceptSpec Q → List Bytes → Bool
  some_offer c [] = false
  some_offer c (o ∷ os) = matches c o || some_offer c os

  abbrev pub some_match : List (AcceptSpec Q) → List Bytes → Bool
  some_match [] os = false
  some_match (c ∷ cs) os = some_offer c os || some_match cs os

  abbrev pub accepted : List (AcceptSpec Q) → Bytes → Bool
  accepted [] o = false
  accepted (c ∷ cs) o = matches c o || accepted cs o

module _ {Q : Type 0} ⦃i : Quality Q⦄ (P : Bytes → Bool) (default_offer : Bytes) where
  -- Until a pair has matched nothing is chosen; then the choice has the property.
  abbrev Chosen : Bool → AcceptSpec Q × Bytes → Type 0
  Chosen seen best =
      (seen ≡ false → best ≡ nothing_chosen default_offer) × (seen ≡ true → P best.1 ≡ true)

  picked :
      (m worse seen : Bool) (best x : AcceptSpec Q × Bytes)
      → (m ≡ true → seen ≡ false → worse ≡ true)
      → (m ≡ true → P x.1 ≡ true)
      → Chosen seen best
      → Chosen (seen || m) (if not m then best else if worse then x else best)
  picked false worse true best x first good k = k
  picked false worse false best x first good k = k
  picked true true true best x first good k = (λ h. absurd cc, λ h. good refl)
  picked true true false best x first good k = (λ h. absurd cc, λ h. good refl)
  picked true false true best x first good k = k
  picked true false false best x first good k =
      absurd (let clash : false ≡ true = first refl refl in cc)

  first_is_better :
      (best : AcceptSpec Q × Bytes) (c : AcceptSpec Q)
      → best ≡ nothing_chosen default_offer
      → i.less i.lowest c.quality ≡ true
      → inferior best.0 c ≡ true
  unfolding inferior
  first_is_better best c h low =
      let less : i.less best.0.quality c.quality ≡ true =
        ap (λ (x : AcceptSpec Q × Bytes). i.less x.0.quality c.quality) h ∙ low in
      rw less refl

  try_offer-Chosen :
      (seen : Bool) (best : AcceptSpec Q × Bytes) (c : AcceptSpec Q) (o : Bytes)
      → i.less i.lowest c.quality ≡ true
      → (matches c o ≡ true → P o ≡ true)
      → Chosen seen best
      → Chosen (seen || matches c o) (try_offer c o best)
  unfolding try_offer
  try_offer-Chosen seen best c o low good k =
      picked (matches c o) (inferior best.0 c) seen best (c, o)
        (λ m new. first_is_better best c (k.0 new) low) good k

  try_offers-Chosen :
      (os : List Bytes) (seen : Bool) (best : AcceptSpec Q × Bytes) (c : AcceptSpec Q)
      → i.less i.lowest c.quality ≡ true
      → ((o : Bytes) → elem o os ≡ true → matches c o ≡ true → P o ≡ true)
      → Chosen seen best
      → Chosen (seen || some_offer c os) (try_offers c os best)
  unfolding try_offers
  try_offers-Chosen [] seen best c low good k = subst (λ x. Chosen x best) (or_false seen) k
  try_offers-Chosen (o ∷ os) seen best c low good k =
      subst (λ x. Chosen x (try_offers c os (try_offer c o best)))
        (or_assoc seen (matches c o) (some_offer c os))
        (try_offers-Chosen os (seen || matches c o) (try_offer c o best) c low
          (λ p e. good p (ground arith))
          (try_offer-Chosen seen best c o low (good o (ground (arith, equal_iff o o))) k))

  try_specs-Chosen :
      (cs : List (AcceptSpec Q)) (os : List Bytes) (seen : Bool) (best : AcceptSpec Q × Bytes)
      → All (λ c. i.less i.lowest c.quality ≡ true) cs
      → ((o : Bytes) → elem o os ≡ true → accepted cs o ≡ true → P o ≡ true)
      → Chosen seen best
      → Chosen (seen || some_match cs os) (try_specs cs os best)
  unfolding try_specs
  try_specs-Chosen [] os seen best low good k = subst (λ x. Chosen x best) (or_false seen) k
  try_specs-Chosen (c ∷ cs) os seen best low good k =
      subst (λ x. Chosen x (try_specs cs os (try_offers c os best)))
        (or_assoc seen (some_offer c os) (some_match cs os))
        (try_specs-Chosen cs os (seen || some_offer c os) (try_offers c os best) low.1
          (λ o e m. good o e (ground arith))
          (try_offers-Chosen os seen best c low.0 (λ o e m. good o e (ground arith)) k))

module _ {Q : Type 0} ⦃i : Quality Q⦄ where
  -- Where every accepted range has a quality above -1: if some range matches some offer, the chosen
  -- type is an offer of the server that a range of the client matches; if none does, it is the
  -- default.
  pub negotiate_content_type_lem :
      (specs : List (AcceptSpec Q)) (offers : List Bytes) (default_offer : Bytes)
      → All (λ c. i.less i.lowest c.quality ≡ true) specs
      → (some_match specs offers ≡ true
          → (elem (negotiate_content_type specs offers default_offer) offers
              && accepted specs (negotiate_content_type specs offers default_offer))
            ≡ true)
        × (some_match specs offers ≡ false
            → negotiate_content_type specs offers default_offer ≡ default_offer)
  unfolding negotiate_content_type
  negotiate_content_type_lem specs offers default_offer low =
      let k =
        try_specs-Chosen (λ o. elem o offers && accepted specs o) default_offer specs offers false
          (nothing_chosen default_offer) low (λ o e m. ground arith) (λ h. refl, λ h. absurd cc) in
      (k.1, λ h. ap (λ (x : AcceptSpec Q × Bytes). x.1) (k.0 h))

  -- A wild range of a better quality and a plain one are each inferior to the other, so that the
  -- choice depends on their order.
  pub inferior_both :
      (a c : AcceptSpec Q)
      → is_wild a ≡ true
      → is_plain c ≡ true
      → i.less c.quality a.quality ≡ true
      → (inferior a c ≡ true) × (inferior c a ≡ true)
  unfolding inferior is_plain
  inferior_both a c wild plain better = (ground arith, rw better refl)
