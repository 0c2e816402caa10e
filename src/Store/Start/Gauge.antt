-- ===== src/Store/Start/Gauge.antt =====
-- `initGauge` counts the queues.
use skewer.Prelude.{
  ℕ, ◌+◌, ◌≤◌, ◌<◌, ◌^◌, ◌%◌, false, none, List, [], ◌∷◌, ◌++◌, ◌≡◌, refl, ap, ◌∙◌, arith, Bytes,
  equal, equal_iff, elem, length, ◌==◌, if◌then◌else◌, inl, inr, Option-cases,
}
use skewer.Conf.Destination.{Destination, destinations}
use skewer.Store.Badger.{Badger, occurs}
use skewer.Store.Partition.{strip}
use skewer.Store.Partition.Keys.{QueueType, ready, sent, failed, perm_errors, queue, prefix}
use skewer.Store.RefCount.{Trie, inc, inc_all}
use skewer.Store.Spec.{Where, absent, Tracker, Represents, in_queue}
use skewer.Store.State.{Store}
use skewer.Store.Landed.{IsAt}
use skewer.Store.Counts.{count_of, pends, pending_in, Matches}
use skewer.Store.Start.{keys_by_prefix, count_dest, count_dests, init_gauge}

module _ {T : Type 0} ⦃i : Trie T⦄ where
  lookup-inc :
      (t : T) (u v : Bytes)
      → count_of (i.lookup t u) + 1 < 2 ^ 32
      → count_of (i.lookup (inc u t) v) ≡ count_of (i.lookup t v) + (if equal u v then 1 else 0)
  unfolding inc
  lookup-inc t u v l = elim (Option-cases (i.lookup t u)) [
    | inl missing ↦ rw missing (ground (arith, i.lookup-insert t u 1 v, equal_iff u v))
    | inr (n, there) ↦
        let small : (n + 1) % 2 ^ 32 ≡ n + 1 = ground arith in
        rw there (ground (arith, i.lookup-insert t u ((n + 1) % 2 ^ 32) v, small, equal_iff u v))
  ]

  lookup-inc_all :
      (us : List Bytes) (t : T) (v : Bytes)
      → ((u : Bytes) → count_of (i.lookup t u) + occurs u us < 2 ^ 32)
      → count_of (i.lookup (inc_all us t) v) ≡ count_of (i.lookup t v) + occurs v us
  unfolding inc_all
  lookup-inc_all [] t v l = omega arith
  lookup-inc_all (u ∷ us) t v l =
      let room : count_of (i.lookup t u) + 1 < 2 ^ 32 = ground (arith, l u, equal_iff u u) in
      let later = lookup-inc_all us (inc u t) v (λ w. ground (arith, l w, lookup-inc t u w room)) in
      omega (arith, later, lookup-inc t u v room)

-- What `keysByPrefix` keeps of the keys.
occurs-keys_by_prefix :
    (a c : ℕ) (v : Bytes) (ks : List Bytes)
    → occurs v (keys_by_prefix (a ∷ c ∷ []) ks)
      ≡ (if length v == 16 then occurs (a ∷ c ∷ v) ks else 0)
occurs-keys_by_prefix a c v [] = ground arith
occurs-keys_by_prefix a c v ([] ∷ ks) = ground (arith, occurs-keys_by_prefix a c v ks)
occurs-keys_by_prefix a c v ((x ∷ []) ∷ ks) = ground (arith, occurs-keys_by_prefix a c v ks)
occurs-keys_by_prefix a c v ((x ∷ y ∷ k) ∷ ks) =
    ground (arith, occurs-keys_by_prefix a c v ks, equal_iff k v)

occurs-elem :
    (k : Bytes) (ks : List Bytes) → occurs k ks ≤ 1 → occurs k ks ≡ (if elem k ks then 1 else 0)
occurs-elem k [] h = refl
occurs-elem k (j ∷ js) h = ground (arith, occurs-elem k js)

strip_none : (ks : List Bytes) → strip [] ks ≡ ks
strip_none [] = refl
strip_none (k ∷ ks) = ap (◌∷◌ k) (strip_none ks)

abbrev in_one : Where → QueueType → ℕ
in_one x q = if in_queue x q then 1 else 0

in_three :
    (x : Where)
    → in_queue x sent ≡ false
    → in_one x ready + in_one x failed + in_one x perm_errors ≡ pends x
in_three x h = ground arith

-- The ULIDs of the store have 16 bytes.
abbrev pub Ulids : Tracker → Type 0
Ulids w = (e : Destination) (v : Bytes) → (length v == 16) ≡ false → w e v ≡ absent

abbrev pub NoneSent : Tracker → Type 0
NoneSent w = (e : Destination) (v : Bytes) → in_queue (w e v) sent ≡ false

module _ {D : Type 0} ⦃b : Badger D⦄ where
  abbrev keys : D → List Bytes
  keys d = strip [] (b.scan d [])

  -- A message stands in the keys of a queue once or never.
  occurs-queue :
      (d : D) (w : Tracker) (q : QueueType) (e : Destination) (v : Bytes)
      → Represents (b.get d) w
      → Ulids w
      → occurs v (keys_by_prefix (prefix (queue q e)) (keys d)) ≡ in_one (w e v) q
  unfolding prefix
  occurs-queue d w q e v rep ulids =
      let k = prefix (queue q e) ++ v in
      let here : occurs k (keys d) ≡ in_one (w e v) q =
        ap (occurs k) (strip_none (b.scan d []))
        ∙ occurs-elem k (b.scan d []) (b.scan-once d [] k)
        ∙ ap (λ x. if x then 1 else 0) (b.elem-scan d [] k ∙ rep e v q) in
      occurs-keys_by_prefix _ _ v (keys d) ∙ ground (arith, here, ulids e v)

in_one-le : (x : Where) (q : QueueType) → in_one x q ≤ 1
in_one-le x q = ground arith

pends-le : (x : Where) → pends x ≤ 1
pends-le x = ground arith

module _ {D T : Type 0} ⦃b : Badger D⦄ ⦃i : Trie T⦄ (d : D) (w : Tracker)
    (rep : Represents (b.get d) w) (ulids : Ulids w) where
  lookup-queue :
      (q : QueueType) (e : Destination) (m : ℕ) (t : T) (v : Bytes)
      → ((u : Bytes) → count_of (i.lookup t u) ≤ m)
      → m + 1 < 2 ^ 32
      → count_of (i.lookup (inc_all (keys_by_prefix (prefix (queue q e)) (keys d)) t) v)
        ≡ count_of (i.lookup t v) + in_one (w e v) q
  lookup-queue q e m t v low room =
      lookup-inc_all (keys_by_prefix (prefix (queue q e)) (keys d)) t v
        (λ u. omega (arith, low u, occurs-queue d w q e u rep ulids, in_one-le (w e u) q))
      ∙ ap (λ n. count_of (i.lookup t v) + n) (occurs-queue d w q e v rep ulids)

  lookup-count_dest :
      (e : Destination) (m : ℕ) (t : T) (v : Bytes)
      → NoneSent w
      → ((u : Bytes) → count_of (i.lookup t u) ≤ m)
      → m < 2 ^ 31
      → count_of (i.lookup (count_dest (keys d) e t) v) ≡ count_of (i.lookup t v) + pends (w e v)
  unfolding count_dest
  lookup-count_dest e m t v calm low room =
      let t1 = inc_all (keys_by_prefix (prefix (queue ready e)) (keys d)) t in
      let one = λ (u : Bytes). lookup-queue ready e m t u low (omega arith) in
      let low1 : (u : Bytes) → count_of (i.lookup t1 u) ≤ m + 1 =
        λ u. omega (arith, one u, low u, in_one-le (w e u) ready) in
      let t2 = inc_all (keys_by_prefix (prefix (queue failed e)) (keys d)) t1 in
      let two = λ (u : Bytes). lookup-queue failed e (m + 1) t1 u low1 (omega arith) in
      let low2 : (u : Bytes) → count_of (i.lookup t2 u) ≤ m + 1 + 1 =
        λ u. omega (arith, two u, low1 u, in_one-le (w e u) failed) in
      let three = lookup-queue perm_errors e (m + 1 + 1) t2 v low2 (omega arith) in
      omega (arith, one v, two v, three, in_three (w e v) (calm e v))

  lookup-count_dests :
      (ds : List Destination) (m : ℕ) (t : T) (v : Bytes)
      → NoneSent w
      → ((u : Bytes) → count_of (i.lookup t u) ≤ m)
      → m + length ds < 2 ^ 31
      → count_of (i.lookup (count_dests (keys d) ds t) v)
        ≡ count_of (i.lookup t v) + pending_in ds w v
  unfolding count_dests
  lookup-count_dests [] m t v calm low room = omega arith
  lookup-count_dests (e ∷ ds) m t v calm low room =
      let one = λ (u : Bytes). lookup-count_dest e m t u calm low (omega arith) in
      let later =
        lookup-count_dests ds (m + 1) (count_dest (keys d) e t) v calm
          (λ u. omega (arith, one u, low u, pends-le (w e u))) (omega arith) in
      omega (arith, one v, later)

module _ {D T : Type 0} ⦃b : Badger D⦄ ⦃i : Trie T⦄ where
  -- Where the counts are empty and no message is in a sent queue, `initGauge` counts each message
  -- once for every destination that has it in a queue.
  pub init_gauge-Matches :
      (s : Store D T) (w : Tracker)
      → IsAt s w
      → Ulids w
      → NoneSent w
      → ((u : Bytes) → i.lookup s.counts u ≡ none)
      → Matches w (init_gauge s).counts
  unfolding init_gauge
  init_gauge-Matches s w rep ulids calm empty v =
      lookup-count_dests s.db w rep ulids destinations 0 s.counts v calm
        (λ u. omega (arith, ap count_of (empty u))) (omega arith)
      ∙ omega (arith, ap count_of (empty v))
