-- ===== src/Store/Reset/Sorting.antt =====
-- What the loop of `resetFailuresByDest` over the failed queue makes of each entry.
use skewer.Prelude.{
  ℕ, Bool, true, false, not, ◌||◌, Option, none, some, List, [], ◌∷◌, ◌++◌, ◌≡◌, refl, ap, arith,
  Bytes, equal, equal_iff, elem,
}
use skewer.Prelude.Int.{ℤ, at_least}
use skewer.Prelude.Outcome.{Outcome, ok, err}
use skewer.Conv.{bytes_to_time}
use skewer.Store.Badger.{Error, Badger, Txn, txn_get}
use skewer.Store.Badger.Triple.{Contents, Holds}
use skewer.Store.Partition.Keys.{failed}
use skewer.Store.Spec.{Where, waiting, in_queue}
use skewer.Store.Reset.{Sorted, minute, read_entry, sort_all}

-- The stored time is a minute ago or more; it is less than a minute ago.
abbrev due_time : ℤ → Option (ℤ × ℕ) → Bool
due_time now none = false
due_time now (some (t, n)) = at_least minute t now

abbrev recent_time : ℤ → Option (ℤ × ℕ) → Bool
recent_time now none = false
recent_time now (some (t, n)) = not (at_least minute t now)

abbrev pub due : ℤ → Option Bytes → Bool
due now none = false
due now (some timeb) = due_time now (bytes_to_time timeb)

abbrev pub recent : ℤ → Option Bytes → Bool
recent now none = false
recent now (some timeb) = recent_time now (bytes_to_time timeb)

-- What the lists say of one message: an expired one is listed and due, an invalid one is listed, and
-- a listed one in neither has failed less than a minute ago.
pub record Judged (now : ℤ) (stored : Option Bytes) (listed expired invalid : Bool) : Type 0 where
  pub expired_due : expired ≡ true → (listed ≡ true) × (due now stored ≡ true)
  pub invalid_listed : invalid ≡ true → listed ≡ true
  pub kept_recent : listed ≡ true → expired ≡ false → invalid ≡ false → recent now stored ≡ true

Judged-head :
    (now : ℤ) (u v : Bytes) (r : Outcome Error Bytes) (stored : Option Bytes) (us : List Bytes)
    (s : Sorted)
    → ((tb : Bytes) → r ≡ ok tb → u ≡ v → stored ≡ some tb)
    → Judged now stored (elem v us) (elem v s.expired) (elem v s.invalid)
    → Judged now stored
        (equal u v || elem v us)
        (elem v (read_entry now u r s).expired)
        (elem v (read_entry now u r s).invalid)
Judged-head now u v (err e) stored us s read j = record {
  expired_due = λ h. ground (arith, j.expired_due h);
  invalid_listed = λ h. ground (arith, j.invalid_listed);
  kept_recent = λ h k l. ground (arith, j.kept_recent);
}
Judged-head now u v (ok tb) stored us s read j = record {
  expired_due = λ h. ground (arith, j.expired_due, read tb refl, equal_iff u v);
  invalid_listed = λ h. ground (arith, j.invalid_listed);
  kept_recent = λ h k l. ground (arith, j.kept_recent, read tb refl, equal_iff u v);
}

pub in_failed : (x : Where) → in_queue x failed ≡ true → x ≡ waiting failed
in_failed x h = ground arith

module _ {D : Type 0} ⦃b : Badger D⦄ where
  read-got :
      (o : Contents) (t : Txn D) (p u v tb : Bytes)
      → Holds o t.view
      → (txn_get (p ++ u) t).0 ≡ ok tb
      → u ≡ v
      → o (p ++ v) ≡ some tb
  unfolding txn_get
  read-got o t p u v tb h r e = ground (arith, h (p ++ u), ap (λ (x : Bytes). o (p ++ x)) e)

  pub view-sort_all :
      (now : ℤ) (p : Bytes) (us : List Bytes) (t : Txn D) → (sort_all now p us t).1.view ≡ t.view
  unfolding sort_all txn_get
  view-sort_all now p [] t = refl
  view-sort_all now p (u ∷ us) t = view-sort_all now p us (txn_get (p ++ u) t).1

  pub sort_all-Judged :
      (now : ℤ) (o : Contents) (p : Bytes) (us : List Bytes) (t : Txn D) (v : Bytes)
      → Holds o t.view
      → Judged now
          (o (p ++ v))
          (elem v us)
          (elem v (sort_all now p us t).0.expired)
          (elem v (sort_all now p us t).0.invalid)
  unfolding sort_all
  sort_all-Judged now o p [] t v h = record {
    expired_due = λ x. cc;
    invalid_listed = λ x. cc;
    kept_recent = λ x y z. cc;
  }
  sort_all-Judged now o p (u ∷ us) t v h =
      let t' = (txn_get (p ++ u) t).1 in
      Judged-head now u v (txn_get (p ++ u) t).0 (o (p ++ v)) us (sort_all now p us t').0
        (λ tb r e. read-got o t p u v tb h r e)
        (sort_all-Judged now o p us t' v (unfold txn_get in h))
