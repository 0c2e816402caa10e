-- ===== src/Store/Badger/Triple.antt =====
-- What a call in a transaction does to the contents of the database, if no step of it fails.
use mathlib.Core.Path.{subst}
use skewer.Prelude.{
  Bool, false, ℕ, zero, suc, true, Option, none, some, ◌≡◌, refl, sym, Bool-cases, some_inj, arith,
  Bytes, equal, Option-cases, inl, inr, if◌then◌else◌,
}
use skewer.Prelude.Outcome.{Outcome, ok, err}
use skewer.Store.Badger.{
  Error, Badger, Plan, answer, Txn, M, Helper, pure, wrap, continue, ◌>>=◌, txn_set, txn_delete,
  committed, conflicts, atomically, retry,
}

-- The map that a database stands for.
abbrev pub Contents : Type 0
Contents = Bytes → Option Bytes

abbrev pub put : Contents → Bytes → Bytes → Contents
put o k v j = if equal k j then some v else o j

abbrev pub remove : Contents → Bytes → Contents
remove o k j = if equal k j then none else o j

abbrev pub OnOk : {D A : Type 0} → (A → D → Type 0) → Outcome Error A × Txn D → Type 0
OnOk Q (ok a, t) = Q a t.view
OnOk Q (err e, t) = Unit

pub OnOk-intro :
    {D A : Type 0} (Q : A → D → Type 0) (r : Outcome Error A × Txn D)
    → ((a : A) → r.0 ≡ ok a → Q a r.1.view)
    → OnOk Q r
OnOk-intro Q (ok a, t) h = h a refl
OnOk-intro Q (err e, t) h = tt

-- From `P`, a call that does not fail ends in `Q`.
pub record Triple {D A : Type 0} (P : D → Type 0) (m : M D A) (Q : A → D → Type 0) : Type 0 where
  pub at : (t : Txn D) → P t.view → OnOk Q (m t)

module _ {D A : Type 0} where
  pub Triple-pure : (P : D → Type 0) (a : A) → Triple P (pure a) (λ _ d. P d)
  Triple-pure P a = record { at = λ t h. h }

  Triple-wrap-at :
      (Q : A → D → Type 0) (r : Outcome Error A × Txn D) → OnOk Q r → OnOk Q (wrap (λ _. r) r.1)
  Triple-wrap-at Q (ok a, t) h = h
  Triple-wrap-at Q (err e, t) h = tt

  pub Triple-wrap :
      {P : D → Type 0} {m : M D A} {Q : A → D → Type 0} → Triple P m Q → Triple P (wrap m) Q
  Triple-wrap {m} {Q} h = record { at = λ t p. Triple-wrap-at Q (m t) (h.at t p) }

module _ {D A : Type 0} {Q Q' : A → D → Type 0} where
  weaken-at :
      (r : Outcome Error A × Txn D) → OnOk Q r → ((a : A) (d : D) → Q a d → Q' a d) → OnOk Q' r
  weaken-at (ok a, t) x k = k a t.view x
  weaken-at (err e, t) x k = tt

module _ {D A : Type 0} {P : D → Type 0} {Q : A → D → Type 0} where
  -- A fact that does not depend on the database.
  pub Triple-assume : {F : Type 0} {m : M D A} → (F → Triple P m Q) → Triple (λ d. P d × F) m Q
  Triple-assume h = record { at = λ t p. (h p.1).at t p.0 }

  pub Triple-if :
      (c : Bool) {m n : M D A}
      → (c ≡ true → Triple P m Q)
      → (c ≡ false → Triple P n Q)
      → Triple P (if c then m else n) Q
  Triple-if true h k = h refl
  Triple-if false h k = k refl

module _ {D A : Type 0} {P : D → Type 0} where
  pub Triple-returns : {F : A → Type 0} (a : A) → F a → Triple P (pure a) (λ x d. P d × F x)
  Triple-returns a h = record { at = λ t p. (p, h) }

module _ {D A : Type 0} {P : D → Type 0} {Q Q' : A → D → Type 0} where
  pub Triple-weaken :
      {m : M D A} → Triple P m Q → ((a : A) (d : D) → Q a d → Q' a d) → Triple P m Q'
  Triple-weaken {m} h k = record { at = λ t p. weaken-at (m t) (h.at t p) k }

module _ {D A B : Type 0} {Q : A → D → Type 0} {R : B → D → Type 0} where
  bind-at :
      (r : Outcome Error A × Txn D) (f : A → M D B)
      → OnOk Q r
      → ((a : A) → Triple (Q a) (f a) R)
      → OnOk R (continue r.0 f r.1)
  bind-at (ok a, t) f h k = (k a).at t h
  bind-at (err e, t) f h k = tt

module _ {D A B : Type 0} {P : D → Type 0} {Q : A → D → Type 0} {R : B → D → Type 0} where
  pub Triple-bind :
      (m : M D A) (f : A → M D B)
      → Triple P m Q
      → ((a : A) → Triple (Q a) (f a) R)
      → Triple P (m >>= f) R
  unfolding ◌>>=◌
  Triple-bind m f h k = record { at = λ t p. bind-at (m t) f (h.at t p) k }

module _ {D : Type 0} ⦃b : Badger D⦄ where
  -- The database has these contents.
  abbrev pub Holds : Contents → D → Type 0
  Holds o d = (j : Bytes) → b.get d j ≡ o j

  told-set :
      (o : Contents) (k v : Bytes) (t : Txn D)
      → Holds o t.view
      → OnOk (λ _. Holds (put o k v)) (txn_set k v t)
  unfolding txn_set
  told-set o k v t h = elim (Option-cases (answer t.plan)) [
    | inl good ↦ rw good (λ j. ground (arith, b.get-set t.view k v j, h j))
    | inr (e, bad) ↦ rw bad tt
  ]

  told-delete :
      (o : Contents) (k : Bytes) (t : Txn D)
      → Holds o t.view
      → OnOk (λ _. Holds (remove o k)) (txn_delete k t)
  unfolding txn_delete
  told-delete o k t h = elim (Option-cases (answer t.plan)) [
    | inl good ↦ rw good (λ j. ground (arith, b.get-delete t.view k j, h j))
    | inr (e, bad) ↦ rw bad tt
  ]

  pub Triple-set :
      (o : Contents) (k v : Bytes) → Triple (Holds o) (txn_set k v) (λ _. Holds (put o k v))
  Triple-set o k v = record { at = told-set o k v }

  pub Triple-delete :
      (o : Contents) (k : Bytes) → Triple (Holds o) (txn_delete k) (λ _. Holds (remove o k))
  Triple-delete o k = record { at = told-delete o k }

-- A helper's transaction: on success its body's postcondition holds of the new database, on an
-- error the database is what it was.
abbrev pub After : {D A : Type 0} → (A → D → Type 0) → D → Outcome Error A × D × Plan → Type 0
After Q d (ok a, d', plan) = Q a d'
After Q d (err e, d', plan) = d' ≡ d

pub After-weaken :
    {D A : Type 0} {Q Q' : A → D → Type 0} (d : D) (r : Outcome Error A × D × Plan)
    → After Q d r
    → ((a : A) (x : D) → Q a x → Q' a x)
    → After Q' d r
After-weaken d (ok a, x, plan) h k = k a x h
After-weaken d (err e, x, plan) h k = h

module _ {D A : Type 0} (Q : A → D → Type 0) where
  pub committed-After :
      (d : D) (r : Outcome Error A × Txn D) (a : Option Error)
      → OnOk Q r
      → After Q d (committed d r.0 r.1 a)
  committed-After d (ok x, t) none h = h
  committed-After d (ok x, t) (some e) h = refl
  committed-After d (err e, t) a h = refl

  After-conflicts :
      (d : D) (x : Outcome Error A × D × Plan) → conflicts x.0 ≡ true → After Q d x → x.1 ≡ d
  After-conflicts d (ok a, d', plan) c h = cc
  After-conflicts d (err e, d', plan) c h = h

-- From a database in `P`, the helper ends as `After` says.
pub record Helps {D A : Type 0} (P : D → Type 0) (helper : Helper D A) (Q : A → D → Type 0)
    : Type 0 where
  pub at : (d : D) (plan : Plan) → P d → After Q d (helper d plan)

module _ {D A : Type 0} {P : D → Type 0} {Q : A → D → Type 0} where
  pub atomically-Helps : (body : M D A) → Triple P body Q → Helps P (atomically body) Q
  unfolding atomically
  atomically-Helps body h = record {
    at = λ d plan p.
        let t : Txn D = record { view = d; plan = plan } in
        committed-After Q d (body t) (answer (body t).1.plan) (h.at t p);
  }

  -- What the retry loop leaves, where it ends.
  pub retry-After :
      (helper : Helper D A) (fuel : ℕ) (d : D) (plan : Plan) {r : Outcome Error A × D × Plan}
      → Helps P helper Q
      → P d
      → retry fuel helper d plan ≡ some r
      → After Q d r
  unfolding retry
  retry-After helper zero d plan h p e = cc
  retry-After helper (suc fuel) d plan {r} h p e =
      let x = helper d plan in
      let here = h.at d plan p in
      elim (Bool-cases (conflicts x.0)) [
        | inl again ↦
            let same = After-conflicts Q d x again here in
            subst (λ c. After Q c r) same
              (retry-After helper fuel x.1 x.2 h (subst P (sym same) p) (rw again at e))
        | inr done ↦ subst (After Q d) (some_inj (rw done at e)) here
      ]
