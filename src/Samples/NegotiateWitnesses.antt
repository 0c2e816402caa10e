-- ===== src/Samples/NegotiateWitnesses.antt =====
-- The choice of a content type, for a client that accepts text and, less, anything.
use skewer.Prelude.{ℕ, true, false, List, [], ◌∷◌, ◌≡◌, ◌&&◌, refl, Bytes, codes, ltb, elem}
use skewer.Negotiate.{Quality, AcceptSpec, negotiate_content_type}
use skewer.Negotiate.Choice.{some_match, accepted, negotiate_content_type_lem}

-- Qualities in tenths, counted from -1.
instance abbrev tenths : Quality ℕ
tenths = record { less = ltb; lowest = 0 }

abbrev ranges : List (AcceptSpec ℕ)
ranges =
    record { range = codes "text/*"; quality = 20; params = [] }
    ∷ record { range = codes "*/*"; quality = 15; params = [] }
    ∷ []

abbrev offers : List Bytes
offers = codes "application/json" ∷ codes "text/plain" ∷ []

negotiate_content_type_lem_example :
    (some_match ranges offers ≡ true
      → (elem (negotiate_content_type ranges offers (codes "x")) offers
          && accepted ranges (negotiate_content_type ranges offers (codes "x")))
        ≡ true)
    × (some_match ranges offers ≡ false
        → negotiate_content_type ranges offers (codes "x") ≡ codes "x")
negotiate_content_type_lem_example =
    negotiate_content_type_lem ranges offers (codes "x") (refl, (refl, tt))
