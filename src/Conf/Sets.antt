-- ===== src/Conf/Sets.antt =====
-- `Iterate` lists a set of destinations.
use skewer.Prelude.{
  ℕ, Bool, true, false, ◌||◌, ◌&&◌, List, [], ◌∷◌, ◌≡◌, refl, ap, arith, ◌==◌, ==_iff,
  if◌then◌else◌,
}
use skewer.Conf.Destination.{
  Destination, kafka, stderr, letter, letter-injective, destinations, has, selected, iterate,
}

abbrev pub same : Destination → Destination → Bool
same d e = letter d == letter e

abbrev pub listed : Destination → List Destination → Bool
listed d [] = false
listed d (e ∷ es) = same d e || listed d es

has-same : (dests : ℕ) (d e : Destination) → same d e ≡ true → has dests d ≡ has dests e
has-same dests d e h = ap (has dests) (letter-injective d e ((==_iff (letter d) (letter e)).0 h))

listed-selected :
    (dests : ℕ) (d : Destination) (es : List Destination)
    → listed d (selected dests es) ≡ (listed d es && has dests d)
unfolding selected
listed-selected dests d [] = refl
listed-selected dests d (e ∷ es) = ground (arith, listed-selected dests d es, has-same dests d e)

listed-destinations : (d : Destination) → listed d destinations ≡ true
unfolding letter
listed-destinations kafka = refl
listed-destinations _ = refl

-- `Iterate` lists exactly the destinations that `Has` finds in the set, and of the empty set it lists
-- `Stderr` alone.
pub listed-iterate :
    (dests : ℕ) (d : Destination)
    → listed d (iterate dests) ≡ (if dests == 0 then same d stderr else has dests d)
unfolding iterate
listed-iterate dests d = ground (arith, listed-selected dests d destinations, listed-destinations d)
