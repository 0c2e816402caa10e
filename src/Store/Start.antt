-- ===== src/Store/Start.antt =====
-- The start of a store (store/store.go): `init`, up to the goroutines that it starts, and the
-- reference counts that `initGauge` fills. The counts of the gauges are left out.
pub mod Gauge
pub mod Pushes
pub mod Recover
use skewer.Prelude.{
  ℕ, Option, none, some, List, [], ◌∷◌, Bytes, length, take, drop, equal, ◌==◌, ◌&&◌, if◌then◌else◌,
}
use skewer.Prelude.Int.{ℤ}
use skewer.Prelude.Outcome.{Outcome}
use skewer.Conf.Destination.{Destination, destinations}
use skewer.Store.Badger.{Error, Badger}
use skewer.Store.Partition.{strip}
use skewer.Store.Partition.Keys.{QueueType, ready, failed, perm_errors, queue, prefix}
use skewer.Store.RefCount.{Trie, inc_all}
use skewer.Store.State.{Store}
use skewer.Store.Reset.{reset_stuck_in_sent, reset_failures}
use skewer.Store.Prune.{prune_orphaned}

-- `keysByPrefix[prefix]`: what follows the prefix in the keys of 18 bytes
abbrev pub keys_by_prefix : Bytes → List Bytes → List Bytes
keys_by_prefix p [] = []
keys_by_prefix p (k ∷ ks) =
    if length k == 18 && equal (take 2 k) p
    then drop 2 k ∷ keys_by_prefix p ks
    else keys_by_prefix p ks

-- The errors of the three steps, which are logged.
pub record Logged : Type 0 where
  pub stuck : Outcome Error (Unit {0})
  pub failures : Outcome Error (Unit {0})
  pub pruning : Outcome Error (Unit {0})

module _ {T : Type 0} ⦃i : Trie T⦄ where
  -- The three queues of a destination that are counted.
  unfoldable pub count_dest : List Bytes → Destination → T → T
  count_dest ks dest t = inc_all (keys_by_prefix (prefix (queue perm_errors dest)) ks) (
      inc_all (keys_by_prefix (prefix (queue failed dest)) ks)
        (inc_all (keys_by_prefix (prefix (queue ready dest)) ks) t))

  unfoldable pub count_dests : List Bytes → List Destination → T → T
  count_dests ks [] t = t
  count_dests ks (dest ∷ dests) t = count_dests ks dests (count_dest ks dest t)

module _ {D T : Type 0} ⦃b : Badger D⦄ ⦃i : Trie T⦄ where
  -- `initGauge`; the partition `Whole` has no prefix
  unfoldable pub init_gauge : Store D T → Store D T
  init_gauge s = record s { counts = count_dests (strip [] (b.scan s.db [])) destinations s.counts }

  abbrev after_prune :
      Outcome Error (Unit {0})
      → Outcome Error (Unit {0})
      → Option (Outcome Error (Unit {0}) × Store D T)
      → Option (Logged × Store D T)
  after_prune r1 r2 none = none
  after_prune r1 r2 (some (r3, s)) =
      some (record { stuck = r1; failures = r2; pruning = r3 }, init_gauge s)

  abbrev after_failures :
      Outcome Error (Unit {0})
      → Option (Outcome Error (Unit {0}) × Store D T)
      → Option (Logged × Store D T)
  after_failures r1 none = none
  after_failures r1 (some (r2, s)) = after_prune r1 r2 (prune_orphaned s)

  abbrev after_stuck :
      (Destination → ℤ)
      → Option (Outcome Error (Unit {0}) × Store D T)
      → Option (Logged × Store D T)
  after_stuck now none = none
  after_stuck now (some (r1, s)) = after_failures r1 (reset_failures now s)

  -- `init`: an error of a step is logged, and the next step runs
  unfoldable pub start : (Destination → ℤ) → Store D T → Option (Logged × Store D T)
  start now s = after_stuck now (reset_stuck_in_sent s)
