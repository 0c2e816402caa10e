-- ===== src/Samples/Stores.antt =====
-- A store with one message in a sent queue and one in a failed queue.
use skewer.Prelude.{
  inl, false, none, some, [], ◌∷◌, ◌++◌, ◌≡◌, refl, arith, Bytes, codes, equal_iff,
}
use skewer.Conf.Destination.{Destination, udp, kafka}
use skewer.Store.Badger.{busy}
use skewer.Store.RefCount.{Entries}
use skewer.Store.Partition.{true_bytes}
use skewer.Store.Partition.Keys.{ready, sent, failed, queue, messages, prefix}
use skewer.Store.Spec.{absent, waiting, Tracker, send_all, covers-queue, covers-message_queue}
use skewer.Store.State.{Store}
use skewer.Store.Landed.{IsAt}
use skewer.Store.Acks.{UidDest}
use skewer.Store.Ingest.Contents.{AllNew}
use skewer.Store.Retrieve.{Formats}
use skewer.Samples.Tables.{Db, table_badger}

abbrev pub one : Bytes
one = codes "one"

abbrev pub two : Bytes
two = codes "two"

-- 2 nanoseconds after the epoch
abbrev pub stamp : Bytes
stamp = 4 ∷ []

abbrev pub sample_db : Db
sample_db =
    (prefix (queue sent udp) ++ one, true_bytes) ∷ (prefix (queue failed udp) ++ two, stamp) ∷ []

-- The first commit meets a conflict.
abbrev pub sample : Store Db Entries
sample = record {
  db = sample_db;
  plan = none ∷ some busy ∷ [];
  counts = (one, 1) ∷ (two, 1) ∷ [];
  dests = 2;
  batch_size = 10;
  no_messages = λ d. false;
}

abbrev pub sample_at : Tracker
sample_at =
    send_all (send_all (λ e v. absent) udp (two ∷ []) (waiting failed)) udp (one ∷ [])
      (waiting sent)

pub sample-IsAt : IsAt sample sample_at
sample-IsAt e v q = ground (
  arith,
  covers-queue sent q udp e (one ∷ []) v,
  covers-queue failed q udp e (two ∷ []) v,
  equal_iff one v,
  equal_iff two v,
)

abbrev pub ack_one : UidDest
ack_one = record { uid = one; dest = udp }

pub one-IsSent : sample_at udp one ≡ waiting sent
unfolding skewer.Conf.Destination.letter
one-IsSent = refl

abbrev pub three : Bytes
three = codes "three"

pub three-AllNew : AllNew sample_at (three ∷ [])
three-AllNew d v h = inl (ground (arith, equal_iff one v, equal_iff two v, equal_iff three v))

-- A store with one message in a ready queue, and its content.
abbrev pub ready_sample : Store Db Entries
ready_sample = record {
  db = (prefix (queue ready udp) ++ one, true_bytes) ∷ (prefix messages ++ one, codes "hello") ∷ [];
  plan = none ∷ none ∷ some busy ∷ [];
  counts = (one, 0) ∷ (two, 1) ∷ [];
  dests = 2;
  batch_size = 10;
  no_messages = λ d. false;
}

abbrev pub ready_at : Tracker
ready_at = send_all (λ e v. absent) udp (one ∷ []) (waiting ready)

pub ready_sample-IsAt : IsAt ready_sample ready_at
ready_sample-IsAt e v q =
    ground (arith, covers-queue ready q udp e (one ∷ []) v, covers-message_queue q e (one ∷ []) v)

-- Messages stored as they are.
abbrev pub plain : Formats Bytes
plain = record { decompress = some; from_buf = some }
