-- ===== src/AckQueue/Linked.antt =====
-- The chain of nodes from the tail to the head.
use skewer.Prelude.{
  ℕ, Bool, true, false, not, ◌&&◌, Option, none, some, List, [], ◌∷◌, ◌++◌, ◌≡◌, refl, ap, sym, ◌∙◌,
  arith, ◌==◌, ==_iff,
}
use skewer.AckQueue.{AState, update}

abbrev pub absent : ℕ → List (ℕ × AState) → Bool
absent m [] = true
absent m ((n, x) ∷ ps) = not (m == n) && absent m ps

-- The nodes after the one at `t`, with their states, up to the one at `hd`.
abbrev pub Linked :
    (next : ℕ → Option ℕ) (state : ℕ → AState) (t : ℕ) → List (ℕ × AState) → (hd : ℕ) → Type 0
Linked next state t [] hd = (t ≡ hd) × (next hd ≡ none)
Linked next state t ((n, x) ∷ ps) hd =
    (next t ≡ some n) × (state n ≡ x) × (absent t ((n, x) ∷ ps) ≡ true) × Linked next state n ps hd

pub update_same : {A : Type 0} → (f : ℕ → A) (i j : ℕ) (v : A) → j ≡ i → update f i v j ≡ v
unfolding update
update_same f i j v h = rw ((==_iff j i).1 h) refl

update_other :
    {A : Type 0} → (f : ℕ → A) (i j : ℕ) (v : A) → (j == i) ≡ false → update f i v j ≡ f j
unfolding update
update_other f i j v h = rw h refl

head_end :
    (next : ℕ → Option ℕ) (state : ℕ → AState) (t : ℕ) (ps : List (ℕ × AState)) (hd : ℕ)
    → Linked next state t ps hd
    → next hd ≡ none
head_end next state t [] hd l = l.1
head_end next state t ((n, x) ∷ ps) hd (_, _, _, l) = head_end next state n ps hd l

absent-append :
    (m n : ℕ) (x : AState) (ps : List (ℕ × AState))
    → absent m ps ≡ true
    → (m == n) ≡ false
    → absent m (ps ++ (n, x) ∷ []) ≡ true
absent-append m n x [] h e = rw e refl
absent-append m n x ((k, y) ∷ ps) h e = ground (arith, absent-append m n x ps)

-- A state written outside the nodes that follow.
pub state_elsewhere :
    (next : ℕ → Option ℕ) (state : ℕ → AState) (t : ℕ) (ps : List (ℕ × AState)) (hd m : ℕ)
    (x : AState)
    → absent m ps ≡ true
    → Linked next state t ps hd
    → Linked next (update state m x) t ps hd
state_elsewhere next state t [] hd m x h l = l
state_elsewhere next state t ((n, y) ∷ ps) hd m x h (e, s, a, l) =
    let apart : (n == m) ≡ false = ground arith in
    (
      e,
      update_other state m n x apart ∙ s,
      a,
      state_elsewhere next state n ps hd m x (ground arith) l,
    )

-- A link written at a node outside the chain.
pub link_elsewhere :
    (next : ℕ → Option ℕ) (state : ℕ → AState) (t : ℕ) (ps : List (ℕ × AState)) (hd m : ℕ)
    → (t == m) ≡ false
    → absent m ps ≡ true
    → Linked next state t ps hd
    → Linked (update next m none) state t ps hd
link_elsewhere next state t [] hd m f h (e, l) = (e, update_other next m hd none (rw (sym e) f) ∙ l)
link_elsewhere next state t ((n, y) ∷ ps) hd m f h (e, s, a, l) = (
  update_other next m t none f ∙ e,
  s,
  a,
  link_elsewhere next state n ps hd m (ground arith) (ground arith) l,
)

ends_apart :
    (next : ℕ → Option ℕ) (t hd n : ℕ) → next t ≡ some n → next hd ≡ none → (t == hd) ≡ false
ends_apart next t hd n e f =
    let same : t ≡ hd → ⊥ = λ h. cc (ap next h, e, f) in ground (arith, same)

-- A node outside the chain, linked behind the head.
pub link_behind :
    (next : ℕ → Option ℕ) (state : ℕ → AState) (t : ℕ) (ps : List (ℕ × AState)) (hd m : ℕ)
    (x : AState)
    → (t == m) ≡ false
    → absent m ps ≡ true
    → next m ≡ none
    → state m ≡ x
    → Linked next state t ps hd
    → Linked (update next hd (some m)) state t (ps ++ (m, x) ∷ []) m
link_behind next state t [] hd m x f h en es (e, l) = (
  update_same next hd t (some m) e,
  es,
  rw f refl,
  (refl, update_other next hd m (some m) (ground arith) ∙ en),
)
link_behind next state t ((n, y) ∷ ps) hd m x f h en es (e, s, a, l) =
    let end = head_end next state n ps hd l in
    let apart : (t == hd) ≡ false = ends_apart next t hd n e end in
    (
      update_other next hd t (some m) apart ∙ e,
      s,
      absent-append t m x ((n, y) ∷ ps) a f,
      link_behind next state n ps hd m x (ground arith) (ground arith) en es l,
    )
