-- ===== src/Store/Counts.antt =====
-- The reference counts against the queues: a message that `GC` lists is in no queue.
use skewer.Prelude.{
  ℕ, suc, ◌+◌, ◌-◌, ◌%◌, ◌^◌, ◌≤◌, ◌<◌, Bool, true, false, Option, none, some, List, [], ◌∷◌, ◌≡◌,
  refl, ap, sym, ◌∙◌, arith, Bytes, equal, equal_iff, elem, length, if◌then◌else◌, inl, inr,
  Option-cases,
}
use skewer.Conf.Destination.{Destination, destinations, kafka, letter}
use skewer.Store.Partition.Keys.{sent}
use skewer.Store.RefCount.{Trie, spent_in, dec, dec_all, gc}
use skewer.Store.RefCount.Gc.{elem-gc}
use skewer.Store.Spec.{Where, absent, waiting, Tracker, same_dest, take_all, tracker-same}
use skewer.Store.Acks.{UidDest, uids}
use skewer.Store.Acks.Refine.{ack_spec}

abbrev pub pends : Where → ℕ
pends absent = 0
pends (waiting q) = 1

-- For how many of these destinations the message is in a queue.
abbrev pub pending_in : List Destination → Tracker → Bytes → ℕ
pending_in [] w v = 0
pending_in (d ∷ ds) w v = pends (w d v) + pending_in ds w v

abbrev times : Destination → List Destination → ℕ
times d [] = 0
times d (e ∷ es) = (if same_dest d e then 1 else 0) + times d es

times-destinations : (d : Destination) → times d destinations ≡ 1
unfolding letter
times-destinations kafka = refl
times-destinations _ = refl

pending_in-le : (ds : List Destination) (w : Tracker) (v : Bytes) → pending_in ds w v ≤ length ds
pending_in-le [] w v = omega arith
pending_in-le (d ∷ ds) w v = ground (arith, pending_in-le ds w v)

-- One message taken from the sent queue of one destination.
pending_in-take :
    (ds : List Destination) (w : Tracker) (d : Destination) (u : Bytes)
    → w d u ≡ waiting sent
    → pending_in ds (take_all w d (u ∷ []) sent) u + times d ds ≡ pending_in ds w u
pending_in-take [] w d u h = refl
pending_in-take (e ∷ es) w d u h =
    ground (arith, pending_in-take es w d u h, tracker-same w d e u, equal_iff u u)

pending_in-other :
    (ds : List Destination) (w : Tracker) (d : Destination) (u v : Bytes)
    → equal u v ≡ false
    → pending_in ds (take_all w d (u ∷ []) sent) v ≡ pending_in ds w v
pending_in-other [] w d u v h = refl
pending_in-other (e ∷ es) w d u v h = ground (arith, pending_in-other es w d u v h)

abbrev pub count_of : Option ℕ → ℕ
count_of none = 0
count_of (some n) = n

-- Each pair is in the sent queue when its turn comes.
abbrev pub EachSent : Tracker → List UidDest → Type 0
EachSent w [] = Unit
EachSent w (a ∷ acks) =
    (w a.dest a.uid ≡ waiting sent) × EachSent (take_all w a.dest (a.uid ∷ []) sent) acks

none_pending :
    (ds : List Destination) (w : Tracker) (v : Bytes) (d : Destination)
    → pending_in ds w v ≡ 0
    → 1 ≤ times d ds
    → w d v ≡ absent
none_pending [] w v d h l = absurd (omega arith)
none_pending (e ∷ es) w v d h l = ground (arith, none_pending es w v d, tracker-same w d e v)

spent-zero : (o : Option ℕ) (v : Bytes) → count_of o < 2 ^ 31 → spent_in v o ≡ true → count_of o ≡ 0
spent-zero none v l h = refl
spent-zero (some n) v l h = ground arith

either :
    (c : Bool) (n m p : ℕ) → (c ≡ true → n ≡ p) → (c ≡ false → m ≡ p) → (if c then n else m) ≡ p
either true n m p h k = h refl
either false n m p h k = k refl

module _ {T : Type 0} ⦃i : Trie T⦄ where
  -- The count of each message is the number of destinations that have it in a queue.
  abbrev pub Matches : Tracker → T → Type 0
  Matches w t = (v : Bytes) → count_of (i.lookup t v) ≡ pending_in destinations w v

  lookup-dec :
      (t : T) (u v : Bytes) (n : ℕ)
      → count_of (i.lookup t u) ≡ suc n
      → n < 2 ^ 31
      → count_of (i.lookup (dec u t).0 v) ≡ (if equal u v then n else count_of (i.lookup t v))
  unfolding dec
  lookup-dec t u v n h l = elim (Option-cases (i.lookup t u)) [
    | inl missing ↦ absurd (ground arith)
    | inr (m, there) ↦
        rw there (ground (arith, i.lookup-insert t u ((m + (2 ^ 32 - 1)) % 2 ^ 32) v))
  ]

  dec-Matches :
      (w : Tracker) (t : T) (d : Destination) (u : Bytes)
      → w d u ≡ waiting sent
      → Matches w t
      → Matches (take_all w d (u ∷ []) sent) (dec u t).0
  dec-Matches w t d u h match v =
      let before = pending_in-take destinations w d u h in
      let n = pending_in destinations (take_all w d (u ∷ []) sent) u in
      let here : count_of (i.lookup t u) ≡ suc n =
        omega (arith, match u, before, times-destinations d) in
      let small : n < 2 ^ 31 =
        omega (arith, pending_in-le destinations (take_all w d (u ∷ []) sent) u) in
      lookup-dec t u v n here small
      ∙ either (equal u v) n (count_of (i.lookup t v)) _
          (λ same.
            ap (pending_in destinations (take_all w d (u ∷ []) sent)) ((equal_iff u v).0 same))
          (λ other. match v ∙ sym (pending_in-other destinations w d u v other))

  -- Acknowledging pairs that are in the sent queue keeps the counts right: the count of each message
  -- is still the number of destinations that have it in a queue.
  pub dec_all-Matches :
      (acks : List UidDest) (w : Tracker) (t : T)
      → EachSent w acks
      → Matches w t
      → Matches (ack_spec w acks) (dec_all (uids acks) t)
  unfolding dec_all
  dec_all-Matches [] w t each match = match
  dec_all-Matches (a ∷ acks) w t each match =
      dec_all-Matches acks (take_all w a.dest (a.uid ∷ []) sent) (dec a.uid t).0 each.1
        (dec-Matches w t a.dest a.uid each.0 match)

  -- Where the counts are right, every message that `GC` lists is in no queue of any destination, so
  -- that no pending message can be purged.
  pub gc-absent :
      (w : Tracker) (t : T) (v : Bytes)
      → Matches w t
      → elem v (gc t) ≡ true
      → (d : Destination) → w d v ≡ absent
  gc-absent w t v match h d =
      let small : count_of (i.lookup t v) < 2 ^ 31 =
        omega (arith, match v, pending_in-le destinations w v) in
      let zero_count : count_of (i.lookup t v) ≡ 0 =
        spent-zero (i.lookup t v) v small (sym (elem-gc t v) ∙ h) in
      none_pending destinations w v d (sym (match v) ∙ zero_count)
        (omega (arith, times-destinations d))
