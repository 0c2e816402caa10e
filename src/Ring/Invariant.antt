-- ===== src/Ring/Invariant.antt =====
-- The invariant of the ring under every interleaving.
use mathlib.Core.Path.{subst}
use native.Mathlib.Nat.{mod-eq_of_lt}
use skewer.Prelude.{
  ℕ, ◌+◌, ◌≤◌, ◌<◌, Bool, true, false, ◌&&◌, ◌||◌, some, ◌≡◌, refl, ap, sym, ◌∙◌, arith, ltb, leb,
  ◌==◌, ==_iff, Bool-cases, inl, inr,
}
use skewer.Ring.Window.{slots_apart}
use skewer.Ring.{
  set, Thread, idle, put_seen, put_owns, put_wrote, get_seen, get_owns, get_read, Stage, unborn,
  putting, wrote, filled, getting, taken, done, System, start, slot, now,
}

pub set-same : {B : Type 0} (f : ℕ → B) (i : ℕ) (x : B) → set f i x i ≡ x
set-same f i x = let same : (i == i) ≡ true = ground arith in rw same refl

pub set-other :
    {B : Type 0} (f : ℕ → B) (i : ℕ) (x : B) (j : ℕ) → (i == j) ≡ false → set f i x j ≡ f j
set-other f i x j h = rw h refl

-- A position with another stage is another position.
pub apart :
    (f : ℕ → Stage) (c : Stage → Bool) (p q : ℕ)
    → c (f p) ≡ false
    → c (f q) ≡ true
    → (p == q) ≡ false
apart f c p q h k = elim (Bool-cases (p == q)) [
  | inl same ↦ absurd (differ (sym h ∙ ap (λ x. c (f x)) ((==_iff p q).0 same) ∙ k))
  | inr other ↦ other
]
  where
    differ : false ≡ true → ⊥
    differ e = cc

pub apart_owner :
    (f : ℕ → ℕ) (p q t u : ℕ) → (t == u) ≡ false → f p ≡ t → f q ≡ u → (p == q) ≡ false
apart_owner f p q t u other h k = elim (Bool-cases (p == q)) [
  | inl same ↦ absurd (ground (arith, ==_iff t u, sym h ∙ ap f ((==_iff p q).0 same) ∙ k))
  | inr apart ↦ apart
]

-- Claimed by a put, and not yet by a get.
abbrev pub present : Stage → Bool
present putting = true
present wrote = true
present filled = true
present _ = false

-- Claimed by a get.
abbrev pub late : Stage → Bool
late getting = true
late taken = true
late done = true
late _ = false

-- A get has not yet given the node back.
abbrev pub held : Stage → Bool
held getting = true
held taken = true
held _ = false

-- The node holds the item.
abbrev pub full : Stage → Bool
full wrote = true
full filled = true
full getting = true
full _ = false

-- A thread is at work on the position.
abbrev pub owned : Stage → Bool
owned putting = true
owned wrote = true
owned getting = true
owned taken = true
owned _ = false

-- The position stored in the node.
abbrev pub seq_of : Stage → ℕ → ℕ → ℕ
seq_of filled p n = p + 1
seq_of getting p n = p + 1
seq_of taken p n = p + 1
seq_of done p n = p + n
seq_of _ p n = p

pub full-active : (x : Stage) → full x ≡ true → (present x || held x) ≡ true
full-active wrote h = refl
full-active filled h = refl
full-active getting h = refl
full-active unborn h = cc
full-active putting h = refl
full-active taken h = refl
full-active done h = cc

module _ {A : Type 0} where
  abbrev pub Good : System A → ℕ → Thread A → Type 0
  Good s t idle = Unit
  Good s t (put_seen p x) = p ≤ s.ring.position (slot s p)
  Good s t (put_owns p x) = (s.stage p ≡ putting) × (s.owner p ≡ t) × (s.item p ≡ some x)
  Good s t (put_wrote p) = (s.stage p ≡ wrote) × (s.owner p ≡ t)
  Good s t (get_seen p) = p < s.ring.position (slot s p)
  Good s t (get_owns p) = (s.stage p ≡ getting) × (s.owner p ≡ t)
  Good s t (get_read p y) = (s.stage p ≡ taken) × (s.owner p ≡ t) × (y ≡ s.item p)

  pub record Inv (s : System A) : Type 0 where
    pub big : 2 ≤ s.ring.size
    pub lower : s.ring.dequeue ≤ s.ring.queue
    pub upper : s.ring.queue ≤ s.ring.dequeue + s.ring.size
    pub is_present : (p : ℕ) → present (s.stage p) ≡ (leb s.ring.dequeue p && ltb p s.ring.queue)
    pub is_late : (p : ℕ) → late (s.stage p) ≡ ltb p s.ring.dequeue
    pub is_held : (p : ℕ) → held (s.stage p) ≡ true → s.ring.queue ≤ p + s.ring.size
    pub seq :
        (p : ℕ)
        → p < s.ring.queue
        → s.ring.queue ≤ p + s.ring.size
        → s.ring.position (slot s p) ≡ seq_of (s.stage p) p s.ring.size
    pub fresh : (p : ℕ) → s.ring.queue ≤ p → p < s.ring.size → s.ring.position (slot s p) ≡ p
    pub kept : (p : ℕ) → full (s.stage p) ≡ true → s.ring.content (slot s p) ≡ s.item p
    pub good : (t : ℕ) → Good s t (s.threads t)

  pub good-set :
      (P : ℕ → Thread A → Type 0) (f : ℕ → Thread A) (t : ℕ) (x : Thread A)
      → P t x
      → ((u : ℕ) → (t == u) ≡ false → P u (f u))
      → (u : ℕ) → P u (set f t x u)
  good-set P f t x h k u = elim (Bool-cases (t == u)) [
    | inl same ↦ rw same (subst (λ v. P v x) ((==_iff t u).0 same) h)
    | inr other ↦ rw other (k u other)
  ]

  -- A position that a thread is at work on is in the window of the last `size` positions.
  pub in_window :
      (s : System A)
      → Inv s
      → (p : ℕ) → (present (s.stage p) || held (s.stage p)) ≡ true
      → (p < s.ring.queue) × (s.ring.queue ≤ p + s.ring.size)
  in_window s i p h = ground (arith, i.is_present p, i.is_late p, i.is_held p, i.lower, i.upper)

  -- Two positions in the window have two slots.
  pub window_slots :
      (s : System A) (p q : ℕ)
      → (p == q) ≡ false
      → (p < s.ring.queue) × (s.ring.queue ≤ p + s.ring.size)
      → (q < s.ring.queue) × (s.ring.queue ≤ q + s.ring.size)
      → (slot s p == slot s q) ≡ false
  window_slots s p q other h k =
      slots_apart s.ring.size p q other (omega (arith, h.0, k.1)) (omega (arith, h.1, k.0))

  -- The steps of another thread.
  pub Good-keeps :
      (s s' : System A) (u : ℕ) (y : Thread A)
      → ((p : ℕ) → s.ring.position (slot s p) ≤ s'.ring.position (slot s' p))
      → ((p : ℕ)
          → s.owner p ≡ u
          → owned (s.stage p) ≡ true
          → (s'.stage p ≡ s.stage p) × (s'.owner p ≡ s.owner p) × (s'.item p ≡ s.item p))
      → Good s u y
      → Good s' u y
  Good-keeps s s' u idle grow same h = tt
  Good-keeps s s' u (put_seen p x) grow same h = omega (arith, grow p)
  Good-keeps s s' u (get_seen p) grow same h = omega (arith, grow p)
  Good-keeps s s' u (put_owns p x) grow same h =
      let k = same p h.1 (ap owned h.0) in (k.0 ∙ h.0, k.1 ∙ h.1, k.2 ∙ h.2)
  Good-keeps s s' u (put_wrote p) grow same h =
      let k = same p h.1 (ap owned h.0) in (k.0 ∙ h.0, k.1 ∙ h.1)
  Good-keeps s s' u (get_owns p) grow same h =
      let k = same p h.1 (ap owned h.0) in (k.0 ∙ h.0, k.1 ∙ h.1)
  Good-keeps s s' u (get_read p y) grow same h =
      let k = same p h.1 (ap owned h.0) in (k.0 ∙ h.0, k.1 ∙ h.1, h.2 ∙ sym k.2)

  pub start-Inv : (n : ℕ) → 2 ≤ n → Inv (start n)
  start-Inv n big = record {
    big = big;
    lower = omega arith;
    upper = omega arith;
    is_present = λ p. ground arith;
    is_late = λ p. ground arith;
    is_held = λ p h. cc;
    seq = λ p h k. absurd (omega arith);
    fresh = λ p h k. mod-eq_of_lt k;
    kept = λ p h. cc;
    good = λ t. tt;
  }

  -- A step that only a thread's own place takes part in.
  pub now-Inv : (s : System A) (t : ℕ) (x : Thread A) → Inv s → Good s t x → Inv (now s t x)
  now-Inv s t x i h = record {
    big = i.big;
    lower = i.lower;
    upper = i.upper;
    is_present = i.is_present;
    is_late = i.is_late;
    is_held = i.is_held;
    seq = i.seq;
    fresh = i.fresh;
    kept = i.kept;
    good = good-set (Good s) s.threads t x h (λ u _. i.good u);
  }
