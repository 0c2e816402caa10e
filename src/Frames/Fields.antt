-- ===== src/Frames/Fields.antt =====
-- `NFields` and `ltrim` (utils/split.go), which cut the header of a RELP line into its words.
use skewer.Prelude.{
  ℕ, zero, suc, ◌+◌, ◌-◌, Bool, true, false, not, ◌&&◌, ◌||◌, Option, none, some, List, [], ◌∷◌,
  ◌++◌, ◌≡◌, refl, ap, arith, Bytes, length, length-append, take, drop, take-length_append,
  drop-length_append, append_assoc, ◌==◌, if◌then◌else◌,
}

-- The bytes of `" \r\n\t"`.
unfoldable pub blank : ℕ → Bool
blank c = c == b' ' || c == 13 || c == 10 || c == 9

-- `bytes.TrimLeft`
abbrev trim_left : Bytes → Bytes
trim_left [] = []
trim_left (c ∷ cs) = if blank c then trim_left cs else c ∷ cs

abbrev after_one : Option ℕ → Option ℕ
after_one none = none
after_one (some i) = some (suc i)

-- `bytes.IndexAny`, where -1 is none
abbrev index_any : Bytes → Option ℕ
index_any [] = none
index_any (c ∷ cs) = if blank c then some 0 else after_one (index_any cs)

unfoldable pub ltrim : Bytes → Bytes × ℕ
ltrim s = (trim_left s, length s - length (trim_left s))

-- One round of the loop; `f` is the rest of it.
unfoldable pub next_field : Bytes → ℕ → Option ℕ → (Bytes → List Bytes × ℕ) → List Bytes × ℕ
next_field [] adv _ f = ([], adv)
next_field (c ∷ s) adv none f = ((c ∷ s) ∷ [], adv + length (c ∷ s))
next_field (c ∷ s) adv (some nextsp) f =
    let (fields, advance) = f (drop nextsp (c ∷ s)) in
    (take nextsp (c ∷ s) ∷ fields, adv + nextsp + advance)

-- `NFields(s, n)` of a count that is not -1
unfoldable pub n_fields : ℕ → Bytes → List Bytes × ℕ
unfolding ltrim next_field
n_fields zero s = ([], 0)
n_fields (suc n) s = let (t, adv) = ltrim s in next_field t adv (index_any t) (n_fields n)

abbrev all_blank : Bytes → Bool
all_blank [] = true
all_blank (c ∷ cs) = blank c && all_blank cs

abbrev no_blank : Bytes → Bool
no_blank [] = true
no_blank (c ∷ cs) = not (blank c) && no_blank cs

abbrev starts_blank : Bytes → Bool
starts_blank [] = false
starts_blank (c ∷ cs) = blank c

-- A word and the blanks in front of it.
pub record Spaced : Type 0 where
  pub blanks : Bytes
  pub first : ℕ
  pub others : Bytes

abbrev pub line : List Spaced → Bytes
line [] = []
line (w ∷ ws) = w.blanks ++ w.first ∷ (w.others ++ line ws)

abbrev pub words : List Spaced → List Bytes
words [] = []
words (w ∷ ws) = (w.first ∷ w.others) ∷ words ws

-- Each word has blanks in front of it, none inside it, and a blank after it.
abbrev pub AllSpaced : List Spaced → Bytes → Type 0
AllSpaced [] rest = Unit
AllSpaced (w ∷ ws) rest =
    (all_blank w.blanks ≡ true)
    × (no_blank (w.first ∷ w.others) ≡ true)
    × (starts_blank (line ws ++ rest) ≡ true)
    × AllSpaced ws rest

trim_left-append :
    (b : Bytes) (c : ℕ) (t : Bytes)
    → all_blank b ≡ true
    → blank c ≡ false
    → trim_left (b ++ c ∷ t) ≡ c ∷ t
trim_left-append [] c t h nc = rw nc refl
trim_left-append (x ∷ b) c t h nc = ground (arith, trim_left-append b c t)

index_any-append :
    (w t : Bytes) → no_blank w ≡ true → starts_blank t ≡ true → index_any (w ++ t) ≡ some (length w)
index_any-append [] [] h s = absurd (ground arith)
index_any-append [] (c ∷ t) h s = rw s refl
index_any-append (x ∷ w) t h s =
    let not_x : blank x ≡ false = ground arith in
    let others : no_blank w ≡ true = ground arith in rw (not_x, index_any-append w t others s) refl

-- The fields of a line of words, as many as the line has, are the words in their order, whatever
-- blanks stand in front of each and whatever follows the blank after the last; the advance is
-- exactly the line.
pub n_fields-line :
    (ws : List Spaced) (rest : Bytes)
    → AllSpaced ws rest
    → n_fields (length ws) (line ws ++ rest) ≡ (words ws, length (line ws))
unfolding n_fields ltrim next_field
n_fields-line [] rest h = refl
n_fields-line (w ∷ ws) rest (b, word, follows, spaced) =
    let tail = line ws ++ rest in
    let visible : blank w.first ≡ false = ground arith in
    let shape : line (w ∷ ws) ++ rest ≡ w.blanks ++ w.first ∷ (w.others ++ tail) =
      rw
        (
          append_assoc w.blanks (w.first ∷ (w.others ++ line ws)) rest,
          append_assoc w.others (line ws) rest,
        )
        refl in
    rw
      (
        shape,
        trim_left-append w.blanks w.first (w.others ++ tail) b visible,
        index_any-append (w.first ∷ w.others) tail word follows,
        take-length_append (w.first ∷ w.others) tail,
        drop-length_append (w.first ∷ w.others) tail,
        n_fields-line ws rest spaced,
      )
      (ap (λ (n : ℕ). ((w.first ∷ w.others) ∷ words ws, n))
        (omega (
          arith,
          length-append w.blanks (w.first ∷ (w.others ++ tail)),
          length-append w.blanks (w.first ∷ (w.others ++ line ws)),
          length-append w.others (line ws),
        )))
