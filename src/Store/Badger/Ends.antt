-- ===== src/Store/Badger/Ends.antt =====
-- The retry loops end: every conflict is an answer of badger, and takes one off the plan.
use skewer.Prelude.{
  Bool, if◌then◌else◌, ℕ, zero, suc, ◌≤◌, ◌<◌, true, false, Option, none, some, [], ◌∷◌, ◌≡◌,
  Bool-cases, inl, inr, arith, Bytes, length,
}
use skewer.Prelude.Outcome.{Outcome, ok, err}
use skewer.Store.Badger.{
  Error, conflict, busy, broken, Badger, Plan, answer, later, got, Txn, M, Helper, told, pure, wrap,
  continue, ◌>>=◌, txn_get, txn_set, txn_delete, committed, conflicts, atomically, retry,
}

abbrev pub SpendsAt : {D A : Type 0} → ℕ → Outcome Error A × Txn D → Type 0
SpendsAt n (ok a, t) = length t.plan ≤ n
SpendsAt n (err conflict, t) = length t.plan < n
SpendsAt n (err e, t) = length t.plan ≤ n

pub length-later : (plan : Plan) → length (later plan) ≤ length plan
length-later [] = omega arith
length-later (a ∷ plan) = omega arith

-- No call lengthens the plan, and one that reports a conflict has shortened it.
pub record Spends {D A : Type 0} (m : M D A) : Type 0 where
  pub at : (t : Txn D) → SpendsAt (length t.plan) (m t)

SpendsAt-le :
    {D A : Type 0} (n k : ℕ) (r : Outcome Error A × Txn D) → n ≤ k → SpendsAt n r → SpendsAt k r
SpendsAt-le n k (ok a, t) l h = omega arith
SpendsAt-le n k (err conflict, t) l h = omega arith
SpendsAt-le n k (err e, t) l h = omega arith

module _ {D A : Type 0} where
  pub Spends-pure : (a : A) → Spends {D = D} (pure a)
  Spends-pure a = record { at = λ t. omega arith }

  wrap-at : (n : ℕ) (r : Outcome Error A × Txn D) → SpendsAt n r → SpendsAt n (wrap (λ _. r) r.1)
  wrap-at n (ok a, t) h = h
  wrap-at n (err conflict, t) h = omega arith
  wrap-at n (err e, t) h = h

  pub Spends-wrap : (m : M D A) → Spends m → Spends (wrap m)
  Spends-wrap m h = record { at = λ t. wrap-at (length t.plan) (m t) (h.at t) }

  pub Spends-if : (c : Bool) (m n : M D A) → Spends m → Spends n → Spends (if c then m else n)
  Spends-if true m n h k = h
  Spends-if false m n h k = k

module _ {D A B : Type 0} where
  bind-at :
      (n : ℕ) (r : Outcome Error A × Txn D) (f : A → M D B)
      → SpendsAt n r
      → ((a : A) → Spends (f a))
      → SpendsAt n (continue r.0 f r.1)
  bind-at n (ok a, t) f h k = SpendsAt-le (length t.plan) n (f a t) h ((k a).at t)
  bind-at n (err conflict, t) f h k = h
  bind-at n (err e, t) f h k = h

  pub Spends-bind :
      (m : M D A) (f : A → M D B) → Spends m → ((a : A) → Spends (f a)) → Spends (m >>= f)
  unfolding ◌>>=◌
  Spends-bind m f h k = record { at = λ t. bind-at (length t.plan) (m t) f (h.at t) k }

module _ {D : Type 0} ⦃b : Badger D⦄ where
  told-at :
      (plan : Plan) (d c : D)
      → SpendsAt (length plan) (told (record { view = d; plan = plan }) c (answer plan))
  told-at [] d c = omega arith
  told-at (none ∷ plan) d c = omega arith
  told-at (some busy ∷ plan) d c = omega arith
  told-at (some (broken n) ∷ plan) d c = omega arith

  pub Spends-set : (k v : Bytes) → Spends {D = D} (txn_set k v)
  unfolding txn_set
  Spends-set k v = record { at = λ t. told-at t.plan t.view (b.set t.view k v) }

  pub Spends-delete : (k : Bytes) → Spends {D = D} (txn_delete k)
  unfolding txn_delete
  Spends-delete k = record { at = λ t. told-at t.plan t.view (b.delete t.view k) }

  got-at :
      (plan : Plan) (d : D) (o : Option Bytes)
      → SpendsAt (length plan) (got (answer plan) o, record { view = d; plan = later plan })
  got-at [] d none = omega arith
  got-at [] d (some v) = omega arith
  got-at (none ∷ plan) d none = omega arith
  got-at (none ∷ plan) d (some v) = omega arith
  got-at (some busy ∷ plan) d o = omega arith
  got-at (some (broken n) ∷ plan) d o = omega arith

  pub Spends-get : (k : Bytes) → Spends {D = D} (txn_get k)
  unfolding txn_get
  Spends-get k = record { at = λ t. got-at t.plan t.view (b.get t.view k) }

pub ruleset spends_rules =
    (Spends-pure, Spends-wrap, Spends-bind, Spends-set, Spends-delete, Spends-get)

module _ {D A : Type 0} where
  pub committed-at :
      (n : ℕ) (d : D) (plan : Plan) (r : Outcome Error A) (v : D)
      → SpendsAt n (r, record { view = v; plan = plan })
      → conflicts (committed d r (record { view = v; plan = plan }) (answer plan)).0 ≡ true
      → length (committed d r (record { view = v; plan = plan }) (answer plan)).2 < n
  committed-at n d [] (ok a) v h c = cc
  committed-at n d (none ∷ plan) (ok a) v h c = cc
  committed-at n d (some busy ∷ plan) (ok a) v h c = omega arith
  committed-at n d (some (broken k) ∷ plan) (ok a) v h c = cc
  committed-at n d plan (err conflict) v h c = h
  committed-at n d plan (err e) v h c = cc

  -- A helper that ends in a conflict has shortened the plan.
  pub record Shortens (helper : Helper D A) : Type 0 where
    pub at :
        (d : D) (plan : Plan)
        → conflicts (helper d plan).0 ≡ true
        → length (helper d plan).2 < length plan

  pub atomically-Shortens : (body : M D A) → Spends body → Shortens (atomically body)
  unfolding atomically
  atomically-Shortens body h = record {
    at = λ d plan.
        let t : Txn D = record { view = d; plan = plan } in
        committed-at (length plan) d (body t).1.plan (body t).0 (body t).1.view (h.at t);
  }

  -- A retry loop over a helper ends within one round more than badger has answers left to give, and
  -- never on a conflict.
  pub retry_total :
      (helper : Helper D A) (fuel : ℕ) (d : D) (plan : Plan)
      → Shortens helper
      → length plan < fuel
      → (r : Outcome Error A × D × Plan) × (retry fuel helper d plan ≡ some r)
        × (conflicts r.0 ≡ false)
  unfolding retry
  retry_total helper zero d plan h l = absurd (omega arith)
  retry_total helper (suc fuel) d plan h l =
      let x = helper d plan in
      elim (Bool-cases (conflicts x.0)) [
        | inl again ↦
            let shorter = h.at d plan again in
            rw again (retry_total helper fuel x.1 x.2 h (omega arith))
        | inr done ↦ (x, rw done, done)
      ]
