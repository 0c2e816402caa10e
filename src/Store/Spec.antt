-- ===== src/Store/Spec.antt =====
-- What the store promises of a message and a destination: in which one of its queues it is. The
-- queues of store/store.go implement it by four key ranges of one database.
use skewer.Prelude.{
  Bool, true, false, ◌&&◌, List, [], ◌∷◌, ◌++◌, ◌≡◌, ◌⊎◌, ap, ◌∙◌, arith, Bytes, equal, elem,
  is_some, ◌==◌, ==_iff, if◌then◌else◌,
}
use skewer.Conf.Destination.{Destination, letter, letter-injective}
use skewer.Store.Badger.Triple.{Contents}
use skewer.Store.Partition.Keys.{
  QueueType, ready, sent, failed, perm_errors, queue_letter, Part, queue, messages, prefix,
  equal_keys,
}
use skewer.Store.Partition.Effects.{covers, put_all, remove_all}

pub data Where : Type 0 where
  absent : Where
  waiting : QueueType → Where

abbrev same_queue : QueueType → QueueType → Bool
same_queue ready ready = true
same_queue sent sent = true
same_queue failed failed = true
same_queue perm_errors perm_errors = true
same_queue _ _ = false

abbrev pub in_queue : Where → QueueType → Bool
in_queue absent q = false
in_queue (waiting r) q = same_queue r q

abbrev pub Tracker : Type 0
Tracker = Destination → Bytes → Where

abbrev pub same_dest : Destination → Destination → Bool
same_dest d e = letter d == letter e

-- The messages of a destination that are in the list go to `x`; the others stay.
abbrev pub send_all : Tracker → Destination → List Bytes → Where → Tracker
send_all w d us x e v = if same_dest d e && elem v us then x else w e v

-- The messages of a destination that are in the list and in queue `q` leave the store.
abbrev pub leave : QueueType → Where → Where
leave q absent = absent
leave q (waiting r) = if same_queue q r then absent else waiting r

abbrev pub take_all : Tracker → Destination → List Bytes → QueueType → Tracker
take_all w d us q e v = if same_dest d e && elem v us then leave q (w e v) else w e v

-- Each message is, for each destination, in the queue that the tracker names and in no other.
abbrev pub Represents : Contents → Tracker → Type 0
Represents o w =
    (e : Destination) (v : Bytes) (q : QueueType)
    → is_some (o (prefix (queue q e) ++ v)) ≡ in_queue (w e v) q

covers-keys :
    (a c : Part) (us : List Bytes) (v : Bytes)
    → covers (prefix a) us (prefix c ++ v) ≡ (equal (prefix a) (prefix c) && elem v us)
covers-keys a c [] v = ground arith
covers-keys a c (u ∷ us) v = ground (arith, equal_keys a c u v, covers-keys a c us v)

same_part-queue :
    (q r : QueueType) (d e : Destination)
    → equal (prefix (queue q d)) (prefix (queue r e)) ≡ (same_queue q r && same_dest d e)
unfolding prefix queue_letter
same_part-queue ready r d e = ground arith
same_part-queue sent r d e = ground arith
same_part-queue failed r d e = ground arith
same_part-queue perm_errors r d e = ground arith

pub covers-queue :
    (q r : QueueType) (d e : Destination) (us : List Bytes) (v : Bytes)
    → covers (prefix (queue q d)) us (prefix (queue r e) ++ v)
      ≡ (same_queue q r && (same_dest d e && elem v us))
covers-queue q r d e us v =
    ground (arith, covers-keys (queue q d) (queue r e) us v, same_part-queue q r d e)

pub covers-message :
    (q : QueueType) (d : Destination) (us : List Bytes) (v : Bytes)
    → covers (prefix (queue q d)) us (prefix messages ++ v) ≡ false
unfolding prefix queue_letter
covers-message q d us v = covers-keys (queue q d) messages us v ∙ ground arith

pub covers-message_queue :
    (q : QueueType) (d : Destination) (us : List Bytes) (v : Bytes)
    → covers (prefix messages) us (prefix (queue q d) ++ v) ≡ false
unfolding prefix queue_letter
covers-message_queue q d us v = covers-keys messages (queue q d) us v ∙ ground arith

pub covers-messages :
    (us : List Bytes) (v : Bytes) → covers (prefix messages) us (prefix messages ++ v) ≡ elem v us
unfolding prefix
covers-messages us v = covers-keys messages messages us v

same_queue-exclusive :
    (q r s : QueueType) → same_queue q r ≡ false → same_queue q s ≡ true → same_queue r s ≡ false
same_queue-exclusive ready r s h k = ground arith
same_queue-exclusive sent r s h k = ground arith
same_queue-exclusive failed r s h k = ground arith
same_queue-exclusive perm_errors r s h k = ground arith

pub ready-is : (x : Where) → in_queue x ready ≡ true → x ≡ waiting ready
ready-is x h = ground arith

-- The messages of `us` are in one of two queues.
abbrev pub AllIn : Tracker → Destination → List Bytes → QueueType → QueueType → Type 0
AllIn w d us q r = (v : Bytes) → elem v us ≡ true → (w d v ≡ waiting q) ⊎ (w d v ≡ waiting r)

pub tracker-same :
    (w : Tracker) (d e : Destination) (v : Bytes) → same_dest d e ≡ true → w d v ≡ w e v
tracker-same w d e v h = ap (λ c. w c v) (letter-injective d e ((==_iff (letter d) (letter e)).0 h))

module _ (o : Contents) (w : Tracker) (rep : Represents o w) where
  -- Taken out of queue `q`, and then put into queue `r`.
  pub Represents-move :
      (q r : QueueType) (d : Destination) (us : List Bytes) (x : Bytes)
      → AllIn w d us q r
      → Represents
          (put_all (remove_all o (prefix (queue q d)) us) (prefix (queue r d)) us x)
          (send_all w d us (waiting r))
  Represents-move q r d us x from e v s = ground (
    arith,
    rep e v s,
    from v,
    tracker-same w d e v,
    covers-queue q s d e us v,
    covers-queue r s d e us v,
  )

  -- Put into queue `r`, and then taken out of queue `q`.
  pub Represents-move_back :
      (q r : QueueType) (d : Destination) (us : List Bytes) (x : Bytes)
      → same_queue q r ≡ false
      → AllIn w d us q r
      → Represents
          (remove_all (put_all o (prefix (queue r d)) us x) (prefix (queue q d)) us)
          (send_all w d us (waiting r))
  Represents-move_back q r d us x differ from e v s = ground (
    arith,
    rep e v s,
    from v,
    same_queue-exclusive q r s differ,
    tracker-same w d e v,
    covers-queue q s d e us v,
    covers-queue r s d e us v,
  )

  -- Taken out of queue `q`: what is in another queue stays there.
  pub Represents-remove :
      (q : QueueType) (d : Destination) (us : List Bytes)
      → Represents (remove_all o (prefix (queue q d)) us) (take_all w d us q)
  Represents-remove q d us e v s =
      ground (arith, rep e v s, tracker-same w d e v, covers-queue q s d e us v)

pub Represents-eq :
    (o : Contents) (w w' : Tracker)
    → ((e : Destination) (v : Bytes) → w e v ≡ w' e v)
    → Represents o w
    → Represents o w'
Represents-eq o w w' same rep e v q = rep e v q ∙ ap (λ x. in_queue x q) (same e v)
