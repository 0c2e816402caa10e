-- ===== src/Relp/Queues.antt =====
-- Lists of transaction numbers.
use skewer.Prelude.{
  ℕ, Bool, true, false, ◌&&◌, ◌||◌, Option, none, some, List, [], ◌∷◌, ◌++◌, ◌≡◌, refl, ap, arith,
  ◌==◌,
}
use skewer.Relp.State.{Raw, Response}

abbrev pub mem : ℕ → List ℕ → Bool
mem n [] = false
mem n (x ∷ xs) = x == n || mem n xs

abbrev pub txnrs : List Raw → List ℕ
txnrs [] = []
txnrs (r ∷ rs) = r.txnr ∷ txnrs rs

abbrev pub answered : List Response → List ℕ
answered [] = []
answered (r ∷ rs) = r.txnr ∷ answered rs

abbrev pub listed : Option ℕ → List ℕ
listed none = []
listed (some n) = n ∷ []

abbrev same : Bool → Bool → Bool
same true b = b
same false true = false
same false false = true

-- The parsers have said of the message `n` that it is good, or that it is not.
abbrev pub told : ℕ → Bool → List Response → Bool
told n b [] = false
told n b (r ∷ rs) = (r.txnr == n && same b r.good) || told n b rs

pub mem-append : (n : ℕ) (xs ys : List ℕ) → mem n (xs ++ ys) ≡ (mem n xs || mem n ys)
mem-append n [] ys = refl
mem-append n (x ∷ xs) ys = ground (arith, mem-append n xs ys)

pub txnrs-append : (xs ys : List Raw) → txnrs (xs ++ ys) ≡ txnrs xs ++ txnrs ys
txnrs-append [] ys = refl
txnrs-append (x ∷ xs) ys = ap (◌∷◌ x.txnr) (txnrs-append xs ys)

pub answered-append : (xs ys : List Response) → answered (xs ++ ys) ≡ answered xs ++ answered ys
answered-append [] ys = refl
answered-append (x ∷ xs) ys = ap (◌∷◌ x.txnr) (answered-append xs ys)

pub told-append :
    (n : ℕ) (b : Bool) (xs ys : List Response) → told n b (xs ++ ys) ≡ (told n b xs || told n b ys)
told-append n b [] ys = refl
told-append n b (x ∷ xs) ys = ground (arith, told-append n b xs ys)
