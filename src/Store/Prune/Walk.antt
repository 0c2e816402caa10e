-- ===== src/Store/Prune/Walk.antt =====
-- The walk of `prune` over the stored messages.
use skewer.Prelude.{
  ℕ, Bool, true, false, ◌||◌, ◌&&◌, not, Option, none, some, List, [], ◌∷◌, ◌++◌, ◌≡◌, refl, ap,
  ◌∙◌, arith, Bytes, equal, equal_iff, elem, is_some, length, if◌then◌else◌,
}
use skewer.Prelude.Outcome.{Outcome, ok, err}
use skewer.Conf.Destination.{Destination, destinations}
use skewer.Store.Badger.{
  Error, conflict, key_not_found, failed, wrapped, busy, broken, Badger, Plan, answer, got, Txn,
  txn_get,
}
use skewer.Store.Badger.Triple.{
  Contents, OnOk-intro, Triple, Triple-pure, Triple-bind, Triple-assume, Triple-if, Triple-returns,
  Triple-weaken, Holds,
}
use skewer.Store.Badger.Ends.{Spends, SpendsAt, Spends-pure, Spends-if, Spends-bind, Spends-get}
use skewer.Store.Partition.{exists_result, exists?, get}
use skewer.Store.Partition.Keys.{ready, sent, failed, perm_errors, queue, messages, prefix}
use skewer.Store.Partition.Effects.{remove_all, Triple-to, delete-Spends}
use skewer.Store.Spec.{Where, absent, waiting, Tracker, Represents}
use skewer.Store.Acks.Effects.{delete_lem}
use skewer.Store.Prune.{known_at, known, orphans, delete_each}

-- The queues that `prune` looks at.
abbrev pub named : Where → Bool
named absent = false
named (waiting ready) = true
named (waiting sent) = false
named (waiting failed) = true
named (waiting perm_errors) = true

abbrev pub named_in : List Destination → Tracker → Bytes → Bool
named_in [] w v = false
named_in (d ∷ ds) w v = named (w d v) || named_in ds w v

exists-at :
    (plan : Plan) (x : Option Bytes) (have : Bool)
    → exists_result (got (answer plan) x) ≡ ok have
    → have ≡ is_some x
exists-at [] none have h = cc
exists-at [] (some v) have h = cc
exists-at (none ∷ plan) none have h = cc
exists-at (none ∷ plan) (some v) have h = cc
exists-at (some busy ∷ plan) x have h = cc
exists-at (some (broken n) ∷ plan) x have h = cc

exists-SpendsAt :
    (n : ℕ) (r : Outcome Error Bytes) {D : Type 0} (t : Txn D)
    → SpendsAt n (r, t)
    → SpendsAt n (exists_result r, t)
exists-SpendsAt n (ok v) t h = h
exists-SpendsAt n (err key_not_found) t h = h
exists-SpendsAt n (err conflict) t h = h
exists-SpendsAt n (err (failed k)) t h = h
exists-SpendsAt n (err (wrapped e)) t h = h

orphans-cons :
    (w : Tracker) (u : Bytes) (us : List Bytes) (have : Bool) (rest : List Bytes)
    → have ≡ named_in destinations w u
    → ((v : Bytes) → elem v rest ≡ (elem v us && not (named_in destinations w v)))
    → (v : Bytes)
    → elem v (if have then rest else u ∷ rest)
      ≡ ((equal u v || elem v us) && not (named_in destinations w v))
orphans-cons w u us true rest e k v =
    ground (arith, k v, equal_iff u v, ap (named_in destinations w))
orphans-cons w u us false rest e k v = ground (arith, k v, equal_iff u v)

module _ {D : Type 0} ⦃b : Badger D⦄ where
  pub exists_lem :
      (o : Contents) (p u : Bytes)
      → Triple {D = D} (Holds o) (exists? p u) (λ have x. Holds o x × (have ≡ is_some (o (p ++ u))))
  unfolding exists? get txn_get
  exists_lem o p u = record {
    at = λ t h.
        OnOk-intro (λ have x. Holds o x × (have ≡ is_some (o (p ++ u)))) (exists? p u t)
          (λ have e.
            (h, exists-at t.plan (b.get t.view (p ++ u)) have e ∙ ap is_some (h (p ++ u))));
  }

  exists-Spends : (p u : Bytes) → Spends {D = D} (exists? p u)
  unfolding exists? get
  exists-Spends p u = record {
    at = λ t.
        exists-SpendsAt (length t.plan) (txn_get (p ++ u) t).0 (txn_get (p ++ u) t).1
          ((Spends-get (p ++ u)).at t);
  }

  module _ (o : Contents) (w : Tracker) (rep : Represents o w) where
    known_at_lem :
        (d : Destination) (u : Bytes)
        → Triple {D = D} (Holds o) (known_at d u) (λ have x. Holds o x × (have ≡ named (w d u)))
    unfolding known_at
    known_at_lem d u = Triple-bind _ _ (exists_lem o (prefix (queue ready d)) u) (λ have.
        Triple-assume (λ e.
          Triple-if have (λ yes. Triple-returns true (ground (arith, rep d u ready)))
            (λ no. Triple-bind _ _ (exists_lem o (prefix (queue failed d)) u) (λ again.
              Triple-assume (λ e'.
                Triple-if again (λ yes. Triple-returns true (ground (arith, rep d u failed)))
                  (λ no'. Triple-weaken (exists_lem o (prefix (queue perm_errors d)) u) (λ last x h.
                    (
                      h.0,
                      ground (arith, h.1, rep d u ready, rep d u failed, rep d u perm_errors),
                    ))))))))

    known_lem :
        (ds : List Destination) (u : Bytes)
        → Triple {D = D} (Holds o) (known ds u) (λ have x. Holds o x × (have ≡ named_in ds w u))
    unfolding known
    known_lem [] u = Triple-returns false refl
    known_lem (d ∷ ds) u = Triple-bind _ _ (known_at_lem d u) (λ have. Triple-assume (λ e.
        Triple-if have (λ yes. Triple-returns true (ground arith))
          (λ no. Triple-weaken (known_lem ds u) (λ rest x h. (h.0, ground (arith, h.1))))))

    -- The orphans among the messages are those that no queue names.
    pub orphans_lem :
        (us : List Bytes)
        → Triple {D = D} (Holds o) (orphans us) (λ os x.
          Holds o x × ((v : Bytes) → elem v os ≡ (elem v us && not (named_in destinations w v))))
    unfolding orphans
    orphans_lem [] = Triple-returns [] (λ v. refl)
    orphans_lem (u ∷ us) = Triple-bind _ _ (known_lem destinations u) (λ have. Triple-assume (λ e.
        Triple-bind _ _ (orphans_lem us)
          (λ rest. Triple-assume (λ k. Triple-returns _ (orphans-cons w u us have rest e k)))))

  pub delete_each_lem :
      (us : List Bytes) (o : Contents)
      → Triple {D = D} (Holds o) (delete_each us) (λ _. Holds (remove_all o (prefix messages) us))
  unfolding delete_each
  delete_each_lem [] o = Triple-pure (Holds o) tt
  delete_each_lem (u ∷ us) o = Triple-bind _ _ (delete_lem o (prefix messages) u) (λ _.
      Triple-to _ (λ j. ground arith)
        (delete_each_lem us (remove_all o (prefix messages) (u ∷ []))))

  known_at-Spends : (d : Destination) (u : Bytes) → Spends {D = D} (known_at d u)
  unfolding known_at
  known_at-Spends d u = Spends-bind _ _ (exists-Spends (prefix (queue ready d)) u) (λ have.
      Spends-if have _ _ (Spends-pure true) (
        Spends-bind _ _ (exists-Spends (prefix (queue failed d)) u) (λ again.
          Spends-if again _ _ (Spends-pure true) (exists-Spends (prefix (queue perm_errors d)) u))))

  known-Spends : (ds : List Destination) (u : Bytes) → Spends {D = D} (known ds u)
  unfolding known
  known-Spends [] u = Spends-pure false
  known-Spends (d ∷ ds) u =
      Spends-bind _ _ (known_at-Spends d u)
        (λ have. Spends-if have _ _ (Spends-pure true) (known-Spends ds u))

  pub orphans-Spends : (us : List Bytes) → Spends {D = D} (orphans us)
  unfolding orphans
  orphans-Spends [] = Spends-pure []
  orphans-Spends (u ∷ us) =
      Spends-bind _ _ (known-Spends destinations u)
        (λ have. Spends-bind _ _ (orphans-Spends us) (λ rest. Spends-pure _))

  pub delete_each-Spends : (us : List Bytes) → Spends {D = D} (delete_each us)
  unfolding delete_each
  delete_each-Spends [] = Spends-pure tt
  delete_each-Spends (u ∷ us) =
      Spends-bind _ _ (delete-Spends (prefix messages) u) (λ _. delete_each-Spends us)
