-- ===== src/Store/Retrieve/Fetching.antt =====
-- What `retrieveIterHelper` makes of the keys of a ready queue.
use skewer.Prelude.{
  ℕ, suc, ◌+◌, ◌≤◌, ◌||◌, ◌&&◌, not, is_some, Option, none, some, List, [], ◌∷◌, ◌++◌, ◌≡◌, refl,
  ap, ◌∙◌, arith, Bytes, equal, equal_iff, elem, length, Option-cases, inl, inr,
}
use skewer.Store.Badger.{Badger, Txn, txn_get, got}
use skewer.Store.Badger.Triple.{Contents, Holds}
use skewer.Store.Badger.Ends.{length-later}
use skewer.Store.Partition.Keys.{messages, prefix}
use skewer.Store.Retrieve.{Formats, Fetched, decode, decode_read, keep, fetch_all}

module _ {Msg : Type 0} (f : Formats Msg) where
  -- The message that the stored content stands for.
  abbrev pub message_of : Option Bytes → Option Msg
  message_of none = none
  message_of (some v) = decode f v

  -- The contents of the ULIDs, in their order, stand for these messages.
  abbrev pub Decoded : Contents → List Bytes → List Msg → Type 0
  Decoded o [] [] = Unit
  Decoded o (u ∷ us) (m ∷ ms) = (message_of (o (prefix messages ++ u)) ≡ some m) × Decoded o us ms
  Decoded o _ _ = ⊥

  Decoded-keep :
      (o : Contents) (u : Bytes) (m : Option Msg) (n : ℕ) (r : Fetched Msg)
      → ((x : Msg) → m ≡ some x → message_of (o (prefix messages ++ u)) ≡ some x)
      → Decoded o r.uids r.msgs
      → Decoded o (keep u m n r).uids (keep u m n r).msgs
  Decoded-keep o u none n r h k = k
  Decoded-keep o u (some x) n r h k = (h x refl, k)

module _ {Msg : Type 0} where
  elem-keep :
      (u v : Bytes) (m : Option Msg) (n : ℕ) (us : List Bytes) (r : Fetched Msg)
      → elem v us ≡ (elem v r.uids || elem v r.invalid)
      → (equal u v || elem v us) ≡ (elem v (keep u m n r).uids || elem v (keep u m n r).invalid)
  elem-keep u v none n us r h = ground arith
  elem-keep u v (some x) n us r h = ground arith

  length-keep :
      (u : Bytes) (m : Option Msg) (n : ℕ) (r : Fetched Msg)
      → length (keep u m n r).uids + length (keep u m n r).invalid
        ≡ suc (length r.uids + length r.invalid)
  length-keep u none n r = omega arith
  length-keep u (some x) n r = omega arith

module _ {Msg : Type 0} (f : Formats Msg) where
  calm-keep :
      (u v : Bytes) (n : ℕ) (x y : Option Bytes) (us : List Bytes) (r : Fetched Msg)
      → (u ≡ v → x ≡ y)
      → elem v r.invalid ≡ (elem v us && not (is_some (message_of f y)))
      → elem v (keep u (decode_read f (got none x)) n r).invalid
        ≡ ((equal u v || elem v us) && not (is_some (message_of f y)))
  calm-keep u v n none y us r same h = ground (arith, equal_iff u v)
  calm-keep u v n (some c) y us r same h = elim (Option-cases (decode f c)) [
    | inl bad ↦ rw bad (ground (arith, equal_iff u v))
    | inr (m, good) ↦ rw good (ground (arith, equal_iff u v))
  ]

module _ {D : Type 0} ⦃b : Badger D⦄ {Msg : Type 0} (f : Formats Msg) where
  read-message :
      (o : Contents) (t : Txn D) (u : Bytes) (m : Msg)
      → Holds o t.view
      → decode_read f (txn_get (prefix messages ++ u) t).0 ≡ some m
      → message_of f (o (prefix messages ++ u)) ≡ some m
  unfolding txn_get
  read-message o t u m h e = ground (arith, h (prefix messages ++ u))

  pub view-fetch_all : (us : List Bytes) (t : Txn D) → (fetch_all f us t).1.view ≡ t.view
  unfolding fetch_all txn_get
  view-fetch_all [] t = refl
  view-fetch_all (u ∷ us) t = view-fetch_all us (txn_get (prefix messages ++ u) t).1

  pub plan-fetch_all :
      (us : List Bytes) (t : Txn D) → length (fetch_all f us t).1.plan ≤ length t.plan
  unfolding fetch_all txn_get
  plan-fetch_all [] t = omega arith
  plan-fetch_all (u ∷ us) t =
      omega (arith, plan-fetch_all us (txn_get (prefix messages ++ u) t).1, length-later t.plan)

  -- Every ULID is fetched or invalid.
  pub fetch_all-sorted :
      (us : List Bytes) (t : Txn D) (v : Bytes)
      → elem v us ≡ (elem v (fetch_all f us t).0.uids || elem v (fetch_all f us t).0.invalid)
  unfolding fetch_all
  fetch_all-sorted [] t v = refl
  fetch_all-sorted (u ∷ us) t v =
      let t' = (txn_get (prefix messages ++ u) t).1 in
      elem-keep u v (decode_read f (txn_get (prefix messages ++ u) t).0) _ us (fetch_all f us t').0
        (fetch_all-sorted us t' v)

  -- Where no call of badger fails, the invalid ULIDs are those whose content stands for no message.
  pub fetch_all-calm :
      (us : List Bytes) (d : D) (v : Bytes)
      → elem v (fetch_all f us (record { view = d; plan = [] })).0.invalid
        ≡ (elem v us && not (is_some (message_of f (b.get d (prefix messages ++ v)))))
  unfolding fetch_all txn_get
  fetch_all-calm [] d v = refl
  fetch_all-calm (u ∷ us) d v =
      calm-keep f u v _ (b.get d (prefix messages ++ u)) (b.get d (prefix messages ++ v)) us _
        (λ e. ap (λ x. b.get d (prefix messages ++ x)) e) (fetch_all-calm us d v)

  pub fetch_all-Decoded :
      (us : List Bytes) (o : Contents) (t : Txn D)
      → Holds o t.view
      → Decoded f o (fetch_all f us t).0.uids (fetch_all f us t).0.msgs
  unfolding fetch_all
  fetch_all-Decoded [] o t h = tt
  fetch_all-Decoded (u ∷ us) o t h =
      let t' = (txn_get (prefix messages ++ u) t).1 in
      Decoded-keep f o u _ _ (fetch_all f us t').0 (λ x e. read-message o t u x h e)
        (fetch_all-Decoded us o t' (unfold txn_get in h))

  pub length-fetch_all :
      (us : List Bytes) (t : Txn D)
      → length (fetch_all f us t).0.uids + length (fetch_all f us t).0.invalid ≡ length us
  unfolding fetch_all
  length-fetch_all [] t = refl
  length-fetch_all (u ∷ us) t =
      let t' = (txn_get (prefix messages ++ u) t).1 in
      length-keep u (decode_read f (txn_get (prefix messages ++ u) t).0) _ (fetch_all f us t').0
      ∙ ap suc (length-fetch_all us t')
