-- ===== src/Store/Ingest/Contents.antt =====
-- What `Ingest` writes: the content of the messages, and their ULIDs in the ready queues.
use skewer.Prelude.{
  true, false, Option, some, List, [], ◌∷◌, ◌++◌, ◌≡◌, ◌⊎◌, refl, ap, ◌∙◌, arith, Bytes, equal,
  equal_iff, elem, is_some, if◌then◌else◌,
}
use skewer.Conf.Destination.{Destination}
use skewer.Store.Badger.Triple.{Contents, put}
use skewer.Store.Partition.{true_bytes}
use skewer.Store.Partition.Keys.{
  QueueType, ready, queue_letter, queue, messages, prefix, equal_keys,
}
use skewer.Store.Partition.Effects.{covers, put_all, put_map}
use skewer.Store.Spec.{absent, waiting, Tracker, send_all, Represents, covers-queue}
use skewer.Store.Ingest.{Batch}

-- Every message of the batch enters the ready queue of these destinations.
abbrev pub ready_spec : List Destination → List Bytes → Tracker → Tracker
ready_spec [] us w = w
ready_spec (d ∷ ds) us w = ready_spec ds us (send_all w d us (waiting ready))

abbrev pub ready_contents : List Destination → List Bytes → Contents → Contents
ready_contents [] us o = o
ready_contents (d ∷ ds) us o =
    ready_contents ds us (put_all o (prefix (queue ready d)) us true_bytes)

-- No destination knows the messages, but perhaps in its ready queue.
abbrev pub AllNew : Tracker → List Bytes → Type 0
AllNew w us =
    (d : Destination) (v : Bytes) → elem v us ≡ true → (w d v ≡ absent) ⊎ (w d v ≡ waiting ready)

AllNew-send :
    (w : Tracker) (d : Destination) (us : List Bytes)
    → AllNew w us
    → AllNew (send_all w d us (waiting ready)) us
AllNew-send w d us new e v h = ground (arith, new e v h)

Represents-put :
    (o : Contents) (w : Tracker) (d : Destination) (us : List Bytes)
    → Represents o w
    → AllNew w us
    → Represents
        (put_all o (prefix (queue ready d)) us true_bytes)
        (send_all w d us (waiting ready))
Represents-put o w d us rep new e v s =
    ground (arith, rep e v s, new e v, covers-queue ready s d e us v)

pub Represents-ready :
    (ds : List Destination) (us : List Bytes) (o : Contents) (w : Tracker)
    → Represents o w
    → AllNew w us
    → Represents (ready_contents ds us o) (ready_spec ds us w)
Represents-ready [] us o w rep new = rep
Represents-ready (d ∷ ds) us o w rep new =
    Represents-ready ds us _ _ (Represents-put o w d us rep new) (AllNew-send w d us new)

covers-message :
    (d : Destination) (us : List Bytes) (v : Bytes)
    → covers (prefix (queue ready d)) us (prefix messages ++ v) ≡ false
unfolding prefix queue_letter
covers-message d [] v = refl
covers-message d (u ∷ us) v = ground (arith, covers-message d us v)

pub ready_contents-message :
    (ds : List Destination) (us : List Bytes) (o : Contents) (v : Bytes)
    → ready_contents ds us o (prefix messages ++ v) ≡ o (prefix messages ++ v)
ready_contents-message [] us o v = refl
ready_contents-message (d ∷ ds) us o v =
    ready_contents-message ds us (put_all o (prefix (queue ready d)) us true_bytes) v
    ∙ rw (covers-message d us v)

-- What the batch makes of the stored content of a message; the last entry counts.
abbrev pub content_of : Batch → Bytes → Option Bytes → Option Bytes
content_of [] v old = old
content_of ((u, x) ∷ m) v old = content_of m v (if equal u v then some x else old)

pub put_map-message :
    (m : Batch) (o : Contents) (v : Bytes)
    → put_map o (prefix messages) m (prefix messages ++ v)
      ≡ content_of m v (o (prefix messages ++ v))
put_map-message [] o v = refl
put_map-message ((u, x) ∷ m) o v =
    put_map-message m (put o (prefix messages ++ u) x) v
    ∙ ap (content_of m v) (
        ground
          (arith, equal_keys messages messages u v, equal_iff (prefix messages) (prefix messages)))

message-queue :
    (q : QueueType) (d : Destination) (u v : Bytes)
    → equal (prefix messages ++ u) (prefix (queue q d) ++ v) ≡ false
unfolding prefix queue_letter
message-queue q d u v = ground arith

put_map-queue :
    (m : Batch) (o : Contents) (q : QueueType) (d : Destination) (v : Bytes)
    → put_map o (prefix messages) m (prefix (queue q d) ++ v) ≡ o (prefix (queue q d) ++ v)
put_map-queue [] o q d v = refl
put_map-queue ((u, x) ∷ m) o q d v =
    put_map-queue m (put o (prefix messages ++ u) x) q d v ∙ rw (message-queue q d u v)

pub Represents-map :
    (m : Batch) (o : Contents) (w : Tracker)
    → Represents o w
    → Represents (put_map o (prefix messages) m) w
Represents-map m o w rep e v q = ap is_some (put_map-queue m o q e v) ∙ rep e v q
