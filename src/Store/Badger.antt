-- ===== src/Store/Badger.antt =====
-- The database under the store: badger, which the source only calls, as a parameter; and the
-- transactions of utils/db/interface.go over it.
--
-- `plan` holds badger's answers to the fallible calls to come, in their order: `none` where a call
-- succeeds, `some f` where it returns the error of the fault `f`. Past the end of the plan every call succeeds.
pub mod Triple
pub mod Ends
use skewer.Prelude.{
  ℕ, zero, suc, ◌+◌, ◌≤◌, Bool, true, false, ◌&&◌, Option, none, some, List, [], ◌∷◌, ◌≡◌, Bytes,
  equal, elem, is_some, ◌==◌, if◌then◌else◌,
}
use skewer.Prelude.Outcome.{Outcome, ok, err}

-- `wrapped e` is what `eerrors.Wrap` makes of `e`: it differs from every plain error.
pub data Error : Type 0 where
  conflict key_not_found : Error
  failed : ℕ → Error
  wrapped : Error → Error

-- How often a key stands in a list.
abbrev pub occurs : Bytes → List Bytes → ℕ
occurs k [] = 0
occurs k (j ∷ js) = (if equal j k then 1 else 0) + occurs k js

abbrev pub has_prefix : Bytes → Bytes → Bool
has_prefix [] k = true
has_prefix (x ∷ p) [] = false
has_prefix (x ∷ p) (y ∷ k) = x == y && has_prefix p k

-- What badger documents: a map from keys to values, and iterators that visit the keys with a
-- prefix, each once.
pub record Badger (D : Type 0) : Type 0 where
  pub get : D → Bytes → Option Bytes
  pub set : D → Bytes → Bytes → D
  pub delete : D → Bytes → D
  pub scan : D → Bytes → List Bytes
  pub get-set :
      (d : D) (k v j : Bytes) → get (set d k v) j ≡ (if equal k j then some v else get d j)
  pub get-delete :
      (d : D) (k j : Bytes) → get (delete d k) j ≡ (if equal k j then none else get d j)
  pub elem-scan : (d : D) (p k : Bytes) → elem k (scan d p) ≡ (has_prefix p k && is_some (get d k))
  pub scan-once : (d : D) (p k : Bytes) → occurs k (scan d p) ≤ 1

-- What may go wrong in a call. Badger reports a missing key only where the key is missing.
pub data Fault : Type 0 where
  busy : Fault
  broken : ℕ → Fault

abbrev pub error_of : Fault → Error
error_of busy = conflict
error_of (broken n) = failed n

abbrev pub Plan : Type 0
Plan = List (Option Fault)

abbrev pub answer : Plan → Option Error
answer [] = none
answer (none ∷ plan) = none
answer (some f ∷ plan) = some (error_of f)

abbrev pub later : Plan → Plan
later [] = []
later (a ∷ plan) = plan

pub record Txn (D : Type 0) : Type 0 where
  pub view : D
  pub plan : Plan

-- A call in a transaction: its result, and the transaction after it.
abbrev pub M : Type 0 → Type 0 → Type 0
M D A = Txn D → Outcome Error A × Txn D

module _ {D A : Type 0} where
  abbrev pub pure : A → M D A
  pure a t = (ok a, t)

  abbrev pub throw : Error → M D A
  throw e t = (err e, t)

  -- `return eerrors.Wrap(err, "...")` where the call fails
  abbrev pub wrap : M D A → M D A
  wrap m t = let (r, t') = m t in (elim r [ ok a ↦ ok a | err e ↦ err (wrapped e) ], t')

module _ {D A B : Type 0} where
  abbrev pub continue : Outcome Error A → (A → M D B) → M D B
  continue (ok a) f t = f a t
  continue (err e) f t = (err e, t)

  infixl 5 ◌>>=◌ ◌>>◌
  unfoldable pub ◌>>=◌ : M D A → (A → M D B) → M D B
  ◌>>=◌ m f t = let (r, t') = m t in continue r f t'

  abbrev pub ◌>>◌ : M D A → M D B → M D B
  m >> n = m >>= λ _. n

abbrev pub got : Option Error → Option Bytes → Outcome Error Bytes
got (some e) o = err e
got none none = err key_not_found
got none (some v) = ok v

module _ {D : Type 0} ⦃b : Badger D⦄ where
  abbrev told : Txn D → D → Option Error → Outcome Error (Unit {0}) × Txn D
  told t d none = (ok tt, record { view = d; plan = later t.plan })
  told t d (some e) = (err e, record t { plan = later t.plan })

  -- `NTransaction.Get`
  unfoldable pub txn_get : Bytes → M D Bytes
  txn_get k t = (got (answer t.plan) (b.get t.view k), record t { plan = later t.plan })

  -- `NTransaction.Set`
  unfoldable pub txn_set : Bytes → Bytes → M D (Unit {0})
  txn_set k v t = told t (b.set t.view k v) (answer t.plan)

  -- `NTransaction.Delete`
  unfoldable pub txn_delete : Bytes → M D (Unit {0})
  txn_delete k t = told t (b.delete t.view k) (answer t.plan)

abbrev pub conflicts : {A : Type 0} → Outcome Error A → Bool
conflicts (ok a) = false
conflicts (err conflict) = true
conflicts (err e) = false

-- A function of the store that opens a transaction on the database: its result, and the database
-- and the plan behind it.
abbrev pub Helper : Type 0 → Type 0 → Type 0
Helper D A = D → Plan → Outcome Error A × D × Plan

-- The helpers that run a body and commit. A body that fails is discarded, and so is a transaction
-- whose commit fails.
module _ {D A : Type 0} where
  abbrev pub committed : D → Outcome Error A → Txn D → Option Error → Outcome Error A × D × Plan
  committed d (err e) t a = (err e, d, t.plan)
  committed d (ok r) t none = (ok r, t.view, later t.plan)
  committed d (ok r) t (some e) = (err e, d, later t.plan)

  unfoldable pub atomically : M D A → Helper D A
  atomically body d plan =
      let (r, t) = body (record { view = d; plan = plan }) in committed d r t (answer t.plan)

  -- `for { err = helper(); if err != badger.ErrConflict { break } }`, on fuel.
  unfoldable pub retry : ℕ → Helper D A → D → Plan → Option (Outcome Error A × D × Plan)
  retry zero helper d plan = none
  retry (suc fuel) helper d plan =
      let (r, d', plan') = helper d plan in
      let again = retry fuel helper d' plan' in if conflicts r then again else some (r, d', plan')
