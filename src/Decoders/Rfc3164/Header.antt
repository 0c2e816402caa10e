-- ===== src/Decoders/Rfc3164/Header.antt =====
-- A message with a header is cut into its fields.
use skewer.Prelude.{
  ℕ, suc, ◌+◌, Bool, true, false, not, ◌&&◌, ◌||◌, some, List, [], ◌∷◌, ◌++◌, ◌≡◌, refl, ap, sym,
  ◌∙◌, arith, Bytes, length, length-append, Bool-cases, inl, inr, take, drop, take-length_append,
  append_assoc, ltb, ◌==◌,
}
use mathlib.Core.Path.{subst}
use skewer.Frames.RoundTrip.{drop_past}
use skewer.Decoders.Texts.{trim_right, trimmed, index, split, join}
use skewer.Decoders.Rfc3164.{has_mark, colons_right, colon_last, parse_tag, tag_parts, proc_of}

abbrev pub no_space : Bytes → Bool
no_space [] = true
no_space (c ∷ s) = not (c == b' ') && no_space s

abbrev pub lacks : ℕ → Bytes → Bool
lacks b [] = true
lacks b (c ∷ s) = not (c == b) && lacks b s

pub index-append :
    (b : ℕ) (w rest : Bytes) → lacks b w ≡ true → index b (w ++ b ∷ rest) ≡ some (length w)
index-append b [] rest h = ground (arith)
index-append b (c ∷ w) rest h =
    let other : (c == b) ≡ false = ground arith in
    rw (index-append b w rest (ground arith), other) refl

pub split-append : (w rest : Bytes) → no_space w ≡ true → split (w ++ b' ' ∷ rest) ≡ w ∷ split rest
split-append [] rest h = refl
split-append (c ∷ w) rest h =
    let other : (c == b' ') ≡ false = ground arith in
    rw (other, split-append w rest (ground arith)) refl

join_put : (c : ℕ) (z : Bytes) (ws : List Bytes) → join ((c ∷ z) ∷ ws) ≡ c ∷ join (z ∷ ws)
join_put c z [] = refl
join_put c z (w ∷ ws) = refl

pub split_cons :
    (s : Bytes) → (z : Bytes) × (ws : List Bytes) × (split s ≡ z ∷ ws) × (join (z ∷ ws) ≡ s)
split_cons [] = ([], [], refl, refl)
split_cons (c ∷ s) =
    let (z, ws, e, j) = split_cons s in
    elim (Bool-cases (c == b' ')) [
      | inl space ↦
          let here : c ≡ b' ' = ground arith in ([], z ∷ ws, rw (space, e) refl, rw (here, j) refl)
      | inr other ↦ (c ∷ z, ws, rw (other, e) refl, join_put c z ws ∙ ap (◌∷◌ c) j)
    ]

trimmed_solid : (c : ℕ) (p : Bytes) (x : ℕ) (s : Bytes) → trimmed c (p ++ x ∷ s) ≡ c ∷ (p ++ x ∷ s)
trimmed_solid c [] x s = refl
trimmed_solid c (d ∷ p) x s = refl

pub trim_right-append :
    (p : Bytes) (x : ℕ) (s : Bytes)
    → trim_right (x ∷ s) ≡ x ∷ s
    → trim_right (p ++ x ∷ s) ≡ p ++ x ∷ s
trim_right-append [] x s h = h
trim_right-append (c ∷ p) x s h = ap (trimmed c) (trim_right-append p x s h) ∙ trimmed_solid c p x s

colon_last_solid : (c : ℕ) (p : Bytes) (x : ℕ) → colon_last c (p ++ x ∷ []) ≡ c ∷ (p ++ x ∷ [])
colon_last_solid c [] x = refl
colon_last_solid c (d ∷ p) x = refl

colons_right-append :
    (p : Bytes) (x : ℕ) → (x == b':') ≡ false → colons_right (p ++ x ∷ b':' ∷ []) ≡ p ++ x ∷ []
colons_right-append [] x h = rw h refl
colons_right-append (c ∷ p) x h =
    ap (colon_last c) (colons_right-append p x h) ∙ colon_last_solid c p x

-- A name, a process in brackets, and a colon.
abbrev pub bracket_tag : Bytes → Bytes → Bytes
bracket_tag app proc = app ++ b'[' ∷ (proc ++ b']' ∷ b':' ∷ [])

has_mark-lacks :
    (b : ℕ) (w : Bytes) → has_mark w ≡ false → (b == b'[' || b == b']') ≡ true → lacks b w ≡ true
has_mark-lacks b [] h k = refl
has_mark-lacks b (c ∷ w) h k = ground (arith, has_mark-lacks b w)

lacks-append : (b : ℕ) (p q : Bytes) → lacks b p ≡ true → lacks b q ≡ true → lacks b (p ++ q) ≡ true
lacks-append b [] q h k = k
lacks-append b (c ∷ p) q h k = ground (arith, lacks-append b p q)

-- The parts of a tag whose colons are gone.
tag_parts-bracket :
    (app proc : Bytes)
    → has_mark app ≡ false
    → has_mark proc ≡ false
    → let t = (app ++ b'[' ∷ proc) ++ b']' ∷ [] in tag_parts t (index b'[' t) ≡ (app, proc)
unfolding tag_parts proc_of
tag_parts-bracket app proc ha hp =
    let p = app ++ b'[' ∷ proc in
    let t = p ++ b']' ∷ [] in
    let parts = append_assoc app (b'[' ∷ proc) (b']' ∷ []) in
    let size : length t ≡ length app + 1 + length proc + 1 =
      omega (arith, length-append p (b']' ∷ []), length-append app (b'[' ∷ proc)) in
    let from : index b'[' t ≡ some (length app) =
      ap (index b'[') parts
      ∙ index-append b'[' app (proc ++ b']' ∷ []) (has_mark-lacks b'[' app ha refl) in
    let to : index b']' t ≡ some (length p) = index-append b']' p [] (
      lacks-append b']' app (b'[' ∷ proc) (has_mark-lacks b']' app ha refl)
        (has_mark-lacks b']' proc hp refl)) in
    let fits : ltb (length app + 1) (length t) ≡ true = ground arith in
    let later : ltb (length app) (length p) ≡ true =
      ground (arith, length-append app (b'[' ∷ proc)) in
    let name : take (length app) t ≡ app =
      ap (take (length app)) parts ∙ take-length_append app (b'[' ∷ (proc ++ b']' ∷ [])) in
    let inner : drop (length app + 1) p ≡ proc =
      subst (λ k. drop k p ≡ proc) {x = suc (length app)} (omega arith) (drop_past app b'[' proc) in
    rw (from, fits, to, later, name, take-length_append p (b']' ∷ []), inner) refl

pub parse_tag-bracket :
    (x : ℕ) (app proc : Bytes)
    → has_mark (x ∷ app) ≡ false
    → has_mark proc ≡ false
    → parse_tag (bracket_tag (x ∷ app) proc) ≡ (x ∷ app, proc)
unfolding parse_tag tag_parts proc_of
parse_tag-bracket x app proc ha hp =
    let proper : (x == b':') ≡ false = ground arith in
    let parts = append_assoc (x ∷ app) (b'[' ∷ proc) (b']' ∷ b':' ∷ []) in
    let bare = colons_right-append ((x ∷ app) ++ b'[' ∷ proc) b']' refl in
    rw proper (
      subst (λ t. tag_parts t (index b'[' t) ≡ (x ∷ app, proc))
        (sym (ap colons_right (sym parts) ∙ bare)) (tag_parts-bracket (x ∷ app) proc ha hp))

-- The text of the header and the message, after the priority.
abbrev pub header_text : (month day clock host tag message : Bytes) → Bytes
header_text month day clock host tag message =
    month ++ b' ' ∷ (day ++ b' ' ∷ (clock ++ b' ' ∷ (host ++ b' ' ∷ (tag ++ b' ' ∷ message))))

-- The words of the header have no space.
pub record HeaderWords (month day clock host tag : Bytes) : Type 0 where
  pub month_word : no_space month ≡ true
  pub day_word : no_space day ≡ true
  pub clock_word : no_space clock ≡ true
  pub host_word : no_space host ≡ true
  pub tag_word : no_space tag ≡ true

pub split-header_text :
    (month day clock host tag message : Bytes)
    → HeaderWords month day clock host tag
    → split (header_text month day clock host tag message)
      ≡ month ∷ day ∷ clock ∷ host ∷ tag ∷ split message
split-header_text month day clock host tag message w =
    rw
      (
        split-append month _ w.month_word,
        split-append day _ w.day_word,
        split-append clock _ w.clock_word,
        split-append host _ w.host_word,
        split-append tag message w.tag_word,
      )
      refl
