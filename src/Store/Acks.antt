-- ===== src/Store/Acks.antt =====
-- Acknowledgements (store/store.go): `doACK`, `doNACK`, `doPermanentError`, and one round of
-- `receiveAcks`. The gauges are not modelled, and neither are the counts that only feed them.
pub mod Effects
pub mod Refine
pub mod Round
use mathlib.Core.Option
use skewer.Prelude.{ℕ, Option, none, some, List, [], ◌∷◌, ◌++◌, Bytes}
use skewer.Prelude.Int.{ℤ}
use skewer.Prelude.Outcome.{Outcome, ok, err}
use skewer.Conv.{time_to_bytes}
use skewer.Conf.Destination.{Destination}
use skewer.Store.Badger.{Error, Badger, M, pure, wrap, ◌>>=◌, ◌>>◌, atomically}
use skewer.Store.Partition.{set, delete}
use skewer.Store.Partition.Keys.{sent, failed, perm_errors, queue, prefix}
use skewer.Store.RefCount.{Trie, dec_all}
use skewer.Store.State.{Store, settle}

-- `queue.UidDest`
pub record UidDest : Type 0 where
  pub uid : Bytes
  pub dest : Destination

abbrev pub uids : List UidDest → List Bytes
uids [] = []
uids (a ∷ acks) = a.uid ∷ uids acks

module _ {D : Type 0} ⦃b : Badger D⦄ where
  -- `doACKHelper`
  pub ack_helper : List UidDest → M D (Unit {0})
  ack_helper [] = pure tt
  ack_helper (a ∷ acks) = wrap (delete (prefix (queue sent a.dest)) a.uid) >> ack_helper acks

  -- The loop of `doNACKHelper`; `stamp` is the time as bytes.
  pub nack_all : Bytes → List UidDest → M D (Unit {0})
  nack_all stamp [] = pure tt
  nack_all stamp (a ∷ nacks) =
      wrap (delete (prefix (queue sent a.dest)) a.uid)
      >> (wrap (set (prefix (queue failed a.dest)) a.uid stamp) >> nack_all stamp nacks)

  -- `doNACKHelper`
  pub nack_helper : ℤ → List UidDest → M D (Unit {0})
  nack_helper now nacks = nack_all (time_to_bytes now) nacks

  -- The loop of `doPermErrorHelper`.
  pub perm_all : Bytes → List UidDest → M D (Unit {0})
  perm_all stamp [] = pure tt
  perm_all stamp (a ∷ pes) =
      wrap (delete (prefix (queue sent a.dest)) a.uid)
      >> (wrap (set (prefix (queue perm_errors a.dest)) a.uid stamp) >> perm_all stamp pes)

  -- `doPermErrorHelper`, whose bytes of the time are those of `Time2Bytes`
  pub perm_helper : ℤ → List UidDest → M D (Unit {0})
  perm_helper now pes = perm_all (time_to_bytes now) pes

module _ {D T : Type 0} ⦃b : Badger D⦄ ⦃i : Trie T⦄ where
  abbrev pub acked :
      List UidDest → Outcome Error (Unit {0}) × Store D T → Outcome Error (Unit {0}) × Store D T
  acked acks (ok u, s) = (ok u, record s { counts = dec_all (uids acks) s.counts })
  acked acks (err e, s) = (err e, s)

  -- `doACK`
  pub do_ack : List UidDest → Store D T → Option (Outcome Error (Unit {0}) × Store D T)
  do_ack [] s = some (ok tt, s)
  do_ack (a ∷ acks) s =
      Option.map (acked (a ∷ acks)) (settle (atomically (ack_helper (a ∷ acks))) s)

  -- `doNACK`
  pub do_nack : ℤ → List UidDest → Store D T → Option (Outcome Error (Unit {0}) × Store D T)
  do_nack now [] s = some (ok tt, s)
  do_nack now (a ∷ nacks) s = settle (atomically (nack_helper now (a ∷ nacks))) s

  -- `doPermanentError`
  pub do_permanent_error :
      ℤ → List UidDest → Store D T → Option (Outcome Error (Unit {0}) × Store D T)
  do_permanent_error now [] s = some (ok tt, s)
  do_permanent_error now (a ∷ pes) s = settle (atomically (perm_helper now (a ∷ pes))) s

  abbrev next :
      (Store D T → Option (Outcome Error (Unit {0}) × Store D T))
      → Outcome Error (Unit {0}) × Store D T
      → Option (Outcome Error (Unit {0}) × Store D T)
  next f (ok u, s) = f s
  next f (err e, s) = some (err (Error.wrapped e), s)

  abbrev pub and_then :
      Option (Outcome Error (Unit {0}) × Store D T)
      → (Store D T → Option (Outcome Error (Unit {0}) × Store D T))
      → Option (Outcome Error (Unit {0}) × Store D T)
  and_then none f = none
  and_then (some r) f = next f r

  -- One round of the loop of `receiveAcks`, on what it took out of the three queues: the first error
  -- ends it. `now` is read by each helper.
  pub apply_acks :
      (now later : ℤ) (acks nacks pes : List UidDest)
      → Store D T
      → Option (Outcome Error (Unit {0}) × Store D T)
  apply_acks now later acks nacks pes s = and_then (do_ack acks s) (λ s1.
      and_then (do_nack now nacks s1)
        (λ s2. and_then (do_permanent_error later pes s2) (λ s3. some (ok tt, s3))))
