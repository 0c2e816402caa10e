-- ===== src/Samples/Tables.antt =====
-- Association lists as instances of the database and of the trie.
use skewer.Prelude.{
  ◌&&◌, Option, none, some, List, [], ◌∷◌, ◌≡◌, refl, arith, Bytes, equal, equal_iff, elem, is_some,
  if◌then◌else◌, ap, ◌∙◌, ◌≤◌,
}
use skewer.Store.Badger.{Badger, has_prefix, occurs}
use skewer.Store.RefCount.{Entries, visited, visits, Trie}

module _ {V : Type 0} where
  abbrev pub find : List (Bytes × V) → Bytes → Option V
  find [] j = none
  find ((k, v) ∷ t) j = if equal k j then some v else find t j

  abbrev pub erase : List (Bytes × V) → Bytes → List (Bytes × V)
  erase [] k = []
  erase ((u, v) ∷ t) k = let rest = erase t k in if equal k u then rest else (u, v) ∷ rest

  pub find-erase :
      (t : List (Bytes × V)) (k j : Bytes)
      → find (erase t k) j ≡ (if equal k j then none else find t j)
  find-erase [] k j = ground arith
  find-erase ((u, v) ∷ t) k j =
      ground (arith, find-erase t k j, equal_iff k u, equal_iff k j, equal_iff u j)

  -- Each key once, with the value that a look-up finds.
  abbrev pub once : List (Bytes × V) → List (Bytes × V)
  once [] = []
  once ((u, v) ∷ t) = (u, v) ∷ erase (once t) u

  pub find-once : (t : List (Bytes × V)) (j : Bytes) → find (once t) j ≡ find t j
  find-once [] j = refl
  find-once ((u, v) ∷ t) j = ground (arith, find-erase (once t) u j, find-once t j)

  abbrev keys_of : Bytes → List (Bytes × V) → List Bytes
  keys_of p [] = []
  keys_of p ((u, v) ∷ t) = if has_prefix p u then u ∷ keys_of p t else keys_of p t

  pub elem-keys_of :
      (p k : Bytes) (t : List (Bytes × V))
      → elem k (keys_of p t) ≡ (has_prefix p k && is_some (find t k))
  elem-keys_of p k [] = ground arith
  elem-keys_of p k ((u, v) ∷ t) = ground (arith, elem-keys_of p k t, equal_iff u k)

  occurs-erase :
      (t : List (Bytes × V)) (p u k : Bytes)
      → occurs k (keys_of p (erase t u)) ≡ (if equal u k then 0 else occurs k (keys_of p t))
  occurs-erase [] p u k = ground arith
  occurs-erase ((j, v) ∷ t) p u k =
      ground (arith, occurs-erase t p u k, equal_iff u j, equal_iff u k, equal_iff j k)

  pub occurs-once : (t : List (Bytes × V)) (p k : Bytes) → occurs k (keys_of p (once t)) ≤ 1
  occurs-once [] p k = omega arith
  occurs-once ((u, v) ∷ t) p k = ground (arith, occurs-once t p k, occurs-erase (once t) p u k)

abbrev pub Db : Type 0
Db = List (Bytes × Bytes)

instance abbrev pub table_badger : Badger Db
table_badger = record {
  get = find;
  set = λ d k v. (k, v) ∷ erase d k;
  delete = erase;
  scan = λ d p. keys_of p (once d);
  get-set = λ d k v j. ground (arith, find-erase d k j);
  get-delete = find-erase;
  elem-scan =
      λ d p k. elem-keys_of p k (once d) ∙ ap (λ o. has_prefix p k && is_some o) (find-once d k);
  scan-once = λ d p k. occurs-once d p k;
}

visited-find : (es : Entries) (u : Bytes) → visited u es ≡ find es u
visited-find [] u = refl
visited-find ((j, n) ∷ es) u = ap (λ r. if equal j u then some n else r) (visited-find es u)

pub visited-once : (t : Entries) (u : Bytes) → visited u (once t) ≡ find t u
visited-once t u = visited-find (once t) u ∙ find-once t u

visits-erase :
    (es : Entries) (k u : Bytes) → visits u (erase es k) ≡ (if equal k u then 0 else visits u es)
visits-erase [] k u = ground arith
visits-erase ((j, n) ∷ es) k u =
    ground (arith, visits-erase es k u, equal_iff k j, equal_iff k u, equal_iff j u)

pub visits-once : (t : Entries) (u : Bytes) → visits u (once t) ≤ 1
visits-once [] u = omega arith
visits-once ((j, n) ∷ t) u = ground (arith, visits-once t u, visits-erase (once t) j u)

instance abbrev pub table_trie : Trie Entries
table_trie = record {
  lookup = find;
  insert = λ t u n. (u, n) ∷ erase t u;
  remove = erase;
  entries = once;
  lookup-insert = λ t u n v. ground (arith, find-erase t u v);
  lookup-remove = find-erase;
  visited-entries = visited-once;
  visits-entries = visits-once;
}
