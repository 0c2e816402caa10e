-- ===== src/Store/Partition/Listing.antt =====
-- `ListKeys` lists exactly the ULIDs that a partition holds.
use skewer.Prelude.{
  true, List, [], ◌∷◌, ◌++◌, ◌≡◌, refl, ◌∙◌, arith, Bytes, equal, elem, equal_self, is_some, length,
  drop,
}
use skewer.Store.Badger.{Badger, has_prefix}
use skewer.Store.Badger.Triple.{Contents, Triple, Holds}
use skewer.Store.Badger.Ends.{Spends}
use skewer.Store.Partition.{strip, list_keys}

has_prefix-append : (p u : Bytes) → has_prefix p (p ++ u) ≡ true
has_prefix-append [] u = refl
has_prefix-append (x ∷ p) u = ground (arith, has_prefix-append p u)

has_prefix-split : (p k : Bytes) → has_prefix p k ≡ true → k ≡ p ++ drop (length p) k
has_prefix-split [] k h = refl
has_prefix-split (x ∷ p) [] h = cc
has_prefix-split (x ∷ p) (y ∷ k) h = ground (arith, has_prefix-split p k)

equal-append : (p u v : Bytes) → equal (p ++ u) (p ++ v) ≡ equal u v
equal-append [] u v = refl
equal-append (x ∷ p) u v = ground (arith, equal-append p u v)

elem-strip :
    (p u : Bytes) (ks : List Bytes)
    → ((k : Bytes) → elem k ks ≡ true → has_prefix p k ≡ true)
    → elem u (strip p ks) ≡ elem (p ++ u) ks
elem-strip p u [] h = refl
elem-strip p u (k ∷ ks) h =
    let whole = has_prefix-split p k (h k (rw equal_self)) in
    let head : equal (drop (length p) k) u ≡ equal k (p ++ u) =
      cc (equal-append p (drop (length p) k) u, whole) in
    ground (arith, head, elem-strip p u ks (λ j e. h j (ground arith)))

module _ {D : Type 0} ⦃b : Badger D⦄ where
  pub elem-scan_keys :
      (o : Contents) (p u : Bytes) (d : D)
      → Holds o d
      → elem u (strip p (b.scan d p)) ≡ is_some (o (p ++ u))
  elem-scan_keys o p u d h =
      elem-strip p u (b.scan d p) (λ k e. ground (arith, b.elem-scan d p k))
      ∙ ground (arith, b.elem-scan d p (p ++ u), has_prefix-append p u, h (p ++ u))

  pub list_keys_lem :
      (o : Contents) (p : Bytes)
      → Triple {D = D}
          (Holds o)
          (list_keys p)
          (λ us d. Holds o d × ((u : Bytes) → elem u us ≡ is_some (o (p ++ u))))
  unfolding list_keys
  list_keys_lem o p = record { at = λ t h. (h, λ u. elem-scan_keys o p u t.view h) }

  pub list_keys-Spends : (p : Bytes) → Spends {D = D} (list_keys p)
  unfolding list_keys
  list_keys-Spends p = record { at = λ t. omega arith }
