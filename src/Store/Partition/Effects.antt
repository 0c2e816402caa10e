-- ===== src/Store/Partition/Effects.antt =====
-- What the operations of a partition do to the contents of the database.
use skewer.Prelude.{
  Bool, false, ◌||◌, none, some, List, [], ◌∷◌, ◌++◌, ◌≡◌, arith, Bytes, equal, if◌then◌else◌,
}
use skewer.Store.Badger.{Badger, M, txn_set, txn_delete}
use skewer.Store.Badger.Triple.{
  Contents, put, remove, Triple, Triple-pure, Triple-weaken, Triple-bind, Holds, Triple-set,
  Triple-delete,
}
use skewer.Store.Badger.Ends.{
  Spends, Spends-pure, Spends-bind, Spends-get, Spends-set, Spends-delete,
}
use skewer.Store.Partition.{
  true_bytes, get, set, delete, add_many, add_many_true_map, add_many_same, delete_many,
}

-- One of the keys, behind the prefix, is `j`.
abbrev pub covers : Bytes → List Bytes → Bytes → Bool
covers p [] j = false
covers p (u ∷ us) j = equal (p ++ u) j || covers p us j

abbrev pub uids_of : List (Bytes × Bytes) → List Bytes
uids_of [] = []
uids_of ((u, v) ∷ m) = u ∷ uids_of m

abbrev pub put_all : Contents → Bytes → List Bytes → Bytes → Contents
put_all o p us v j = if covers p us j then some v else o j

abbrev pub remove_all : Contents → Bytes → List Bytes → Contents
remove_all o p us j = if covers p us j then none else o j

abbrev pub put_map : Contents → Bytes → List (Bytes × Bytes) → Contents
put_map o p [] = o
put_map o p ((u, v) ∷ m) = put_map (put o (p ++ u) v) p m

module _ {D : Type 0} ⦃b : Badger D⦄ where
  pub Triple-to :
      {A : Type 0} {P : D → Type 0} {m : M D A} (o : Contents) {o' : Contents}
      → ((j : Bytes) → o j ≡ o' j)
      → Triple P m (λ _. Holds o)
      → Triple P m (λ _. Holds o')
  Triple-to o e h = Triple-weaken h (λ a d x j. cc (x j, e j))

  pub add_many_same_lem :
      (o : Contents) (p : Bytes) (us : List Bytes) (v : Bytes)
      → Triple {D = D} (Holds o) (add_many_same p us v) (λ _. Holds (put_all o p us v))
  unfolding add_many_same
  add_many_same_lem o p [] v = Triple-pure (Holds o) tt
  add_many_same_lem o p (u ∷ us) v =
      Triple-bind (txn_set (p ++ u) v) _ (Triple-set o (p ++ u) v)
        (λ _. Triple-to _ (λ j. ground arith) (add_many_same_lem (put o (p ++ u) v) p us v))

  pub delete_many_lem :
      (o : Contents) (p : Bytes) (us : List Bytes)
      → Triple {D = D} (Holds o) (delete_many p us) (λ _. Holds (remove_all o p us))
  unfolding delete_many
  delete_many_lem o p [] = Triple-pure (Holds o) tt
  delete_many_lem o p (u ∷ us) =
      Triple-bind (txn_delete (p ++ u)) _ (Triple-delete o (p ++ u))
        (λ _. Triple-to _ (λ j. ground arith) (delete_many_lem (remove o (p ++ u)) p us))

  pub add_many_true_map_lem :
      (o : Contents) (p : Bytes) (m : List (Bytes × Bytes))
      → Triple {D = D}
          (Holds o)
          (add_many_true_map p m)
          (λ _. Holds (put_all o p (uids_of m) true_bytes))
  unfolding add_many_true_map
  add_many_true_map_lem o p [] = Triple-pure (Holds o) tt
  add_many_true_map_lem o p ((u, v) ∷ m) =
      Triple-bind (txn_set (p ++ u) true_bytes) _ (Triple-set o (p ++ u) true_bytes) (λ _.
        Triple-to _ (λ j. ground arith) (add_many_true_map_lem (put o (p ++ u) true_bytes) p m))

  pub add_many_lem :
      (o : Contents) (p : Bytes) (m : List (Bytes × Bytes))
      → Triple {D = D} (Holds o) (add_many p m) (λ _. Holds (put_map o p m))
  unfolding add_many
  add_many_lem o p [] = Triple-pure (Holds o) tt
  add_many_lem o p ((u, v) ∷ m) =
      Triple-bind (txn_set (p ++ u) v) _ (Triple-set o (p ++ u) v)
        (λ _. add_many_lem (put o (p ++ u) v) p m)

  pub add_many_same-Spends :
      (p : Bytes) (us : List Bytes) (v : Bytes) → Spends {D = D} (add_many_same p us v)
  unfolding add_many_same
  add_many_same-Spends p [] v = Spends-pure tt
  add_many_same-Spends p (u ∷ us) v =
      Spends-bind _ _ (Spends-set (p ++ u) v) (λ _. add_many_same-Spends p us v)

  pub delete_many-Spends : (p : Bytes) (us : List Bytes) → Spends {D = D} (delete_many p us)
  unfolding delete_many
  delete_many-Spends p [] = Spends-pure tt
  delete_many-Spends p (u ∷ us) =
      Spends-bind _ _ (Spends-delete (p ++ u)) (λ _. delete_many-Spends p us)

  pub add_many-Spends : (p : Bytes) (m : List (Bytes × Bytes)) → Spends {D = D} (add_many p m)
  unfolding add_many
  add_many-Spends p [] = Spends-pure tt
  add_many-Spends p ((u, v) ∷ m) =
      Spends-bind _ _ (Spends-set (p ++ u) v) (λ _. add_many-Spends p m)

  pub add_many_true_map-Spends :
      (p : Bytes) (m : List (Bytes × Bytes)) → Spends {D = D} (add_many_true_map p m)
  unfolding add_many_true_map
  add_many_true_map-Spends p [] = Spends-pure tt
  add_many_true_map-Spends p ((u, v) ∷ m) =
      Spends-bind _ _ (Spends-set (p ++ u) true_bytes) (λ _. add_many_true_map-Spends p m)

  pub get-Spends : (p u : Bytes) → Spends {D = D} (get p u)
  unfolding get
  get-Spends p u = Spends-get (p ++ u)

  pub set-Spends : (p u v : Bytes) → Spends {D = D} (set p u v)
  unfolding set
  set-Spends p u v = Spends-set (p ++ u) v

  pub delete-Spends : (p u : Bytes) → Spends {D = D} (delete p u)
  unfolding delete
  delete-Spends p u = Spends-delete (p ++ u)
