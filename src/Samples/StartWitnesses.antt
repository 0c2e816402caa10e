-- ===== src/Samples/StartWitnesses.antt =====
-- The theorem on the start of a store, applied to a store with a message in a sent queue and one in
-- a failed queue.
use skewer.Prelude.{
  false, none, some, [], ◌∷◌, ◌++◌, ◌≡◌, refl, arith, Bytes, codes, equal, equal_iff, length,
}
use skewer.Prelude.Int.{pos}
use skewer.Conf.Destination.{udp}
use skewer.Store.Badger.{busy}
use skewer.Store.RefCount.{Entries}
use skewer.Store.Partition.{true_bytes}
use skewer.Store.Partition.Keys.{sent, failed, queue, prefix}
use skewer.Store.Spec.{absent, waiting, Tracker, send_all, covers-queue}
use skewer.Store.State.{Store}
use skewer.Store.Landed.{IsAt}
use skewer.Store.Start.{Logged, start}
use skewer.Store.Start.Gauge.{Ulids}
use skewer.Store.Start.Recover.{Recovered, start_recovers}
use skewer.Samples.Tables.{Db, table_badger, table_trie}
use skewer.Samples.Stores.{stamp}

abbrev first : Bytes
first = codes "0123456789abcdef"

abbrev second : Bytes
second = codes "123456789abcdef0"

abbrev stopped_with : Bytes → Bytes → Store Db Entries
stopped_with x y = record {
  db = (prefix (queue sent udp) ++ x, true_bytes) ∷ (prefix (queue failed udp) ++ y, stamp) ∷ [];
  plan = none ∷ some busy ∷ [];
  counts = [];
  dests = 2;
  batch_size = 10;
  no_messages = λ d. false;
}

abbrev stopped_at : Bytes → Bytes → Tracker
stopped_at x y =
    send_all (send_all (λ e v. absent) udp (y ∷ []) (waiting failed)) udp (x ∷ []) (waiting sent)

stopped-IsAt : (x y : Bytes) → equal x y ≡ false → IsAt (stopped_with x y) (stopped_at x y)
stopped-IsAt x y differ e v q = ground (
  arith,
  covers-queue sent q udp e (x ∷ []) v,
  covers-queue failed q udp e (y ∷ []) v,
  equal_iff x v,
  equal_iff y v,
)

stopped-Ulids : (x y : Bytes) → length x ≡ 16 → length y ≡ 16 → Ulids (stopped_at x y)
stopped-Ulids x y h k e v n = ground (arith, equal_iff x v, equal_iff y v)

start_recovers_example :
    (r : Logged × Store Db Entries) × (start (λ d. pos 60000000002) (stopped_with first second)
      ≡ some r)
    × Recovered (stopped_with first second) (stopped_at first second) r
start_recovers_example =
    start_recovers (λ d. pos 60000000002) (stopped_with first second) (stopped_at first second)
      (stopped-IsAt first second refl) (stopped-Ulids first second refl refl) (λ u. refl)
