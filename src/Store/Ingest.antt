-- ===== src/Store/Ingest.antt =====
-- New messages (store/store.go): `Ingest` and its helpers. The batch is a Go map from ULIDs to the
-- serialized messages, here a list of its entries. `compress` is snappy's writer, code outside the
-- repository.
pub mod Contents
pub mod Refine
use mathlib.Core.Option
use skewer.Prelude.{
  ℕ, suc, Bool, false, Option, none, some, List, [], ◌∷◌, Bytes, length, ◌==◌, if◌then◌else◌,
}
use skewer.Prelude.Outcome.{Outcome, ok, err}
use skewer.Conf.Destination.{Destination, letter, iterate}
use skewer.Store.Badger.{Error, Badger, M, atomically}
use skewer.Store.Partition.{add_many, add_many_true_map}
use skewer.Store.Partition.Keys.{ready, queue, messages, prefix}
use skewer.Store.Partition.Effects.{uids_of}
use skewer.Store.RefCount.{Trie, new_all}
use skewer.Store.Spec.{same_dest}
use skewer.Store.State.{Store, settle}

abbrev pub Batch : Type 0
Batch = List (Bytes × Bytes)

-- The loop over the batch: an empty message stays as it is.
abbrev pub compressed : (Bytes → Bytes) → Bytes → Bytes
compressed compress [] = []
compressed compress (x ∷ v) = compress (x ∷ v)

abbrev pub compress_all : (Bytes → Bytes) → Batch → Batch
compress_all compress [] = []
compress_all compress ((u, v) ∷ m) = (u, compressed compress v) ∷ compress_all compress m

module _ {D : Type 0} ⦃b : Badger D⦄ where
  -- `ingestReadyHelper`, the body of its transaction
  pub ready_helper : Destination → Batch → M D (Unit {0})
  ready_helper dest m = add_many_true_map (prefix (queue ready dest)) m

  -- `ingestMsgsHelper`, the body of its transaction
  pub messages_helper : Batch → M D (Unit {0})
  messages_helper m = add_many (prefix messages) m

module _ {D T : Type 0} where
  -- `s.zeroMsgFlags[dest].Store(flag)`
  abbrev pub set_flag : Destination → Bool → Store D T → Store D T
  set_flag dest flag s = record s {
    no_messages = λ e. if same_dest dest e then flag else s.no_messages e;
  }

  abbrev one_more : (ℕ × Option Error) × Store D T → (ℕ × Option Error) × Store D T
  one_more ((n, e), s) = ((suc n, e), s)

  abbrev pub after_ready :
      (Store D T → Option ((ℕ × Option Error) × Store D T))
      → Destination
      → Option (Outcome Error (Unit {0}) × Store D T)
      → Option ((ℕ × Option Error) × Store D T)
  after_ready f dest none = none
  after_ready f dest (some (ok u, s)) = Option.map one_more (f (set_flag dest false s))
  after_ready f dest (some (err e, s)) = some ((0, some e), s)

module _ {D T : Type 0} ⦃b : Badger D⦄ where
  -- The loop over the destinations: `nbDone`, and the error that broke out of it.
  pub ready_all : List Destination → Batch → Store D T → Option ((ℕ × Option Error) × Store D T)
  ready_all [] m s = some ((0, none), s)
  ready_all (dest ∷ dests) m s =
      after_ready (ready_all dests m) dest (settle (atomically (ready_helper dest m)) s)

module _ {D T : Type 0} ⦃b : Badger D⦄ ⦃i : Trie T⦄ where
  abbrev pub counted : Batch → (ℕ × Option Error) × Store D T → (ℕ × Option Error) × Store D T
  counted m ((n, e), s) = ((length m, e), record s { counts = new_all (uids_of m) n s.counts })

  abbrev pub after_messages :
      Batch
      → Option (Outcome Error (Unit {0}) × Store D T)
      → Option ((ℕ × Option Error) × Store D T)
  after_messages m none = none
  after_messages m (some (ok u, s)) = Option.map (counted m) (ready_all (iterate s.dests) m s)
  after_messages m (some (err e, s)) = some ((0, some e), s)

  -- `Ingest`: how many messages it took, and its error.
  pub ingest : (Bytes → Bytes) → Batch → Store D T → Option ((ℕ × Option Error) × Store D T)
  ingest compress [] s = some ((0, none), s)
  ingest compress (a ∷ m) s =
      let m' = compress_all compress (a ∷ m) in
      after_messages m' (settle (atomically (messages_helper m')) s)
