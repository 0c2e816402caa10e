-- ===== src/Store/RefCount/Gc.antt =====
-- `GC` lists exactly the messages whose count is spent.
use skewer.Prelude.{◌≤◌, false, [], ◌∷◌, ◌≡◌, refl, ap, ◌∙◌, arith, Bytes, equal_iff, elem}
use skewer.Store.RefCount.{Entries, spent_in, keys_spent, visited, visits, Trie, gc}

-- A key that is not visited is not listed.
keys_spent-unvisited : (es : Entries) (u : Bytes) → visits u es ≡ 0 → elem u (keys_spent es) ≡ false
keys_spent-unvisited [] u h = refl
keys_spent-unvisited ((k, n) ∷ es) u h = ground (arith, keys_spent-unvisited es u)

elem-keys_spent :
    (es : Entries) (u : Bytes)
    → visits u es ≤ 1
    → elem u (keys_spent es) ≡ spent_in u (visited u es)
elem-keys_spent [] u h = refl
elem-keys_spent ((k, n) ∷ es) u h =
    ground (arith, elem-keys_spent es u, keys_spent-unvisited es u, equal_iff k u)

module _ {T : Type 0} ⦃i : Trie T⦄ where
  pub elem-gc : (t : T) (v : Bytes) → elem v (gc t) ≡ spent_in v (i.lookup t v)
  unfolding gc
  elem-gc t v =
      elem-keys_spent (i.entries t) v (i.visits-entries t v)
      ∙ ap (spent_in v) (i.visited-entries t v)
