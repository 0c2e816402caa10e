-- ===== src/Store/Ingest/Refine.antt =====
-- `Ingest` against the specification: the content of a message is stored before its ULID enters the
-- ready queue of each of the destinations.
use skewer.Prelude.{ℕ, true, Option, none, List, ◌++◌, ◌≡◌, ◌⊎◌, Bytes, is_some, length, take}
use skewer.Prelude.Outcome.{Outcome}
use skewer.Conf.Destination.{Destination, iterate}
use skewer.Store.Badger.{Error, Badger}
use skewer.Store.Badger.Triple.{Contents, Holds}
use skewer.Store.Partition.Keys.{messages, prefix}
use skewer.Store.Partition.Effects.{uids_of}
use skewer.Store.RefCount.{Trie, new_all}
use skewer.Store.Spec.{Tracker}
use skewer.Store.State.{Store}
use skewer.Store.Landed.{IsAt}
use skewer.Store.Ingest.{Batch}
use skewer.Store.Ingest.Contents.{ready_spec, ready_contents, content_of}

module _ {D T : Type 0} ⦃b : Badger D⦄ where
  -- The loop over the destinations has served the first `r.0.0` of them, all where it met no error.
  pub record Served (ds : List Destination) (m : Batch) (o : Contents) (s : Store D T)
      (r : (ℕ × Option Error) × Store D T) : Type 0 where
    pub holds : Holds (ready_contents (take r.0.0 ds) (uids_of m) o) r.1.db
    pub complete : r.0.1 ≡ none → r.0.0 ≡ length ds
    pub same_counts : r.1.counts ≡ s.counts

module _ {D T : Type 0} ⦃b : Badger D⦄ ⦃i : Trie T⦄ where
  -- How `Ingest` ends where it stored the contents.
  pub record Ingested (m : Batch) (s : Store D T) (w : Tracker) (n : ℕ)
      (r : (ℕ × Option Error) × Store D T) : Type 0 where
    pub state : IsAt r.1 (ready_spec (take n (iterate s.dests)) (uids_of m) w)
    pub content :
        (v : Bytes)
        → b.get r.1.db (prefix messages ++ v) ≡ content_of m v (b.get s.db (prefix messages ++ v))
    pub counts : r.1.counts ≡ new_all (uids_of m) n s.counts
    pub complete : r.0.1 ≡ none → n ≡ length (iterate s.dests)

  -- A run of `Ingest` on a batch: either the contents are not stored, there is an error and the
  -- store is the same but for badger's answers; or the first `n` destinations are served.
  abbrev pub IngestEnds : Batch → Store D T → Tracker → (ℕ × Option Error) × Store D T → Type 0
  IngestEnds m s w r =
      ((r.0.0 ≡ 0) × (is_some r.0.1 ≡ true) × (r.1 ≡ record s { plan = r.1.plan }))
      ⊎ ((n : ℕ) × (r.0.0 ≡ length m) × Ingested m s w n r)
