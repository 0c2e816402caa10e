-- ===== src/Store/Partition.antt =====
-- Partitions: one database cut up by key prefixes (utils/db/partition.go). A partition is its
-- prefix. A Go map is a list of its entries, in the order in which the loop meets them.
pub mod Keys
pub mod Effects
pub mod Listing
use skewer.Prelude.{ℕ, Bool, true, false, List, [], ◌∷◌, ◌++◌, map, Bytes, codes, drop, length}
use skewer.Prelude.Outcome.{Outcome, ok, err}
use skewer.Store.Badger.{
  Error, conflict, key_not_found, failed, wrapped, Badger, Txn, M, pure, ◌>>=◌, ◌>>◌, txn_get,
  txn_set, txn_delete,
}

-- `trueBytes`
abbrev pub true_bytes : Bytes
true_bytes = codes "true"

abbrev pub exists_result : Outcome Error Bytes → Outcome Error Bool
exists_result (ok v) = ok true
exists_result (err key_not_found) = ok false
exists_result (err e) = err e

-- `partition[len(prefix):]` of every key that the iterator visits
abbrev pub strip : Bytes → List Bytes → List Bytes
strip p [] = []
strip p (k ∷ ks) = drop (length p) k ∷ strip p ks

module _ {D : Type 0} ⦃b : Badger D⦄ where
  -- `partitionImpl.Get`
  unfoldable pub get : Bytes → Bytes → M D Bytes
  get p uid = txn_get (p ++ uid)

  -- `partitionImpl.Set`
  unfoldable pub set : Bytes → Bytes → Bytes → M D (Unit {0})
  set p uid v = txn_set (p ++ uid) v

  -- `partitionImpl.Delete`
  unfoldable pub delete : Bytes → Bytes → M D (Unit {0})
  delete p uid = txn_delete (p ++ uid)

  -- `partitionImpl.Exists`
  unfoldable pub exists? : Bytes → Bytes → M D Bool
  exists? p uid t = let (r, t') = get p uid t in (exists_result r, t')

  -- `partitionImpl.AddMany`
  unfoldable pub add_many : Bytes → List (Bytes × Bytes) → M D (Unit {0})
  add_many p [] = pure tt
  add_many p ((uid, v) ∷ m) = txn_set (p ++ uid) v >> add_many p m

  -- `partitionImpl.AddManyTrueMap`
  unfoldable pub add_many_true_map : Bytes → List (Bytes × Bytes) → M D (Unit {0})
  add_many_true_map p [] = pure tt
  add_many_true_map p ((uid, v) ∷ m) = txn_set (p ++ uid) true_bytes >> add_many_true_map p m

  -- `partitionImpl.AddManySame`
  unfoldable pub add_many_same : Bytes → List Bytes → Bytes → M D (Unit {0})
  add_many_same p [] v = pure tt
  add_many_same p (uid ∷ uids) v = txn_set (p ++ uid) v >> add_many_same p uids v

  -- `partitionImpl.DeleteMany`
  unfoldable pub delete_many : Bytes → List Bytes → M D (Unit {0})
  delete_many p [] = pure tt
  delete_many p (uid ∷ uids) = txn_delete (p ++ uid) >> delete_many p uids

  -- `partitionImpl.ListKeys`: an iterator's calls do not fail.
  unfoldable pub list_keys : Bytes → M D (List Bytes)
  list_keys p t = (ok (strip p (b.scan t.view p)), t)

  -- `partitionImpl.Count`
  unfoldable pub count : Bytes → M D ℕ
  count p t = (ok (length (b.scan t.view p)), t)
