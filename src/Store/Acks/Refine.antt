-- ===== src/Store/Acks/Refine.antt =====
-- The acknowledgements against the specification: an ACK takes a message out of the store for one
-- destination, a NACK and a permanent error move it to the queue of their name.
use skewer.Prelude.{some, List, [], ◌∷◌, ◌≡◌, ◌⊎◌, refl, ap, arith, Bytes, equal_iff}
use skewer.Prelude.Int.{ℤ}
use skewer.Prelude.Outcome.{Outcome, ok, err}
use skewer.Conv.{time_to_bytes}
use skewer.Conf.Destination.{Destination}
use skewer.Store.Badger.{Error, Badger}
use skewer.Store.Badger.Triple.{Contents}
use skewer.Store.Partition.Keys.{QueueType, sent, failed, perm_errors}
use skewer.Store.RefCount.{Trie, dec_all}
use skewer.Store.Spec.{
  waiting, Tracker, send_all, take_all, Represents, AllIn, Represents-move, Represents-remove,
}
use skewer.Store.State.{Store}
use skewer.Store.Landed.{IsAt, Landed, settle-Landed}
use skewer.Store.Acks.{
  UidDest, uids, ack_helper, nack_helper, perm_helper, acked, do_ack, do_nack, do_permanent_error,
}
use skewer.Store.Acks.Effects.{
  acked_contents, moved_contents, ack_helper_lem, nack_helper_lem, perm_helper_lem,
  ack_helper-Spends, nack_helper-Spends, perm_helper-Spends,
}

-- Every acknowledged pair that is in the sent queue leaves the store.
abbrev pub ack_spec : Tracker → List UidDest → Tracker
ack_spec w [] = w
ack_spec w (a ∷ acks) = ack_spec (take_all w a.dest (a.uid ∷ []) sent) acks

-- Every pair goes to queue `q`.
abbrev pub move_spec : QueueType → Tracker → List UidDest → Tracker
move_spec q w [] = w
move_spec q w (a ∷ rest) = move_spec q (send_all w a.dest (a.uid ∷ []) (waiting q)) rest

-- Each pair is in the sent queue, or already in queue `q`.
abbrev pub AllSent : QueueType → Tracker → List UidDest → Type 0
AllSent q w [] = Unit
AllSent q w (a ∷ rest) =
    ((w a.dest a.uid ≡ waiting sent) ⊎ (w a.dest a.uid ≡ waiting q)) × AllSent q w rest

acked-Represents :
    (acks : List UidDest) (o : Contents) (w : Tracker)
    → Represents o w
    → Represents (acked_contents o acks) (ack_spec w acks)
acked-Represents [] o w rep = rep
acked-Represents (a ∷ acks) o w rep =
    acked-Represents acks _ _ (Represents-remove o w rep sent a.dest (a.uid ∷ []))

AllSent-send :
    (q : QueueType) (w : Tracker) (d : Destination) (u : Bytes) (rest : List UidDest)
    → AllSent q w rest
    → AllSent q (send_all w d (u ∷ []) (waiting q)) rest
AllSent-send q w d u [] h = tt
AllSent-send q w d u (a ∷ rest) h = (ground arith, AllSent-send q w d u rest h.1)

one-AllIn :
    (w : Tracker) (d : Destination) (u : Bytes) (q : QueueType)
    → (w d u ≡ waiting sent) ⊎ (w d u ≡ waiting q)
    → AllIn w d (u ∷ []) sent q
one-AllIn w d u q h v e = ground (arith, equal_iff u v)

moved-Represents :
    (rest : List UidDest) (q : QueueType) (stamp : Bytes) (o : Contents) (w : Tracker)
    → AllSent q w rest
    → Represents o w
    → Represents (moved_contents q stamp o rest) (move_spec q w rest)
moved-Represents [] q stamp o w all rep = rep
moved-Represents (a ∷ rest) q stamp o w all rep =
    moved-Represents rest q stamp _ _ (AllSent-send q w a.dest a.uid rest all.1)
      (Represents-move o w rep sent q a.dest (a.uid ∷ []) stamp (one-AllIn w a.dest a.uid q all.0))

module _ {D T : Type 0} ⦃b : Badger D⦄ ⦃i : Trie T⦄ where
  acked-Landed :
      (acks : List UidDest) (s : Store D T) (w : Tracker) (r : Outcome Error (Unit {0}) × Store D T)
      → Landed s w s.counts r
      → Landed s w (dec_all (uids acks) s.counts) (acked acks r)
  acked-Landed acks s w (ok u, s') h =
      (h.0, ap (λ (x : Store D T). record x { counts = dec_all (uids acks) x.counts }) h.1)
  acked-Landed acks s w (err e, s') h = h

  -- From a store in state `w`, `doACK` ends. Either every acknowledged pair that was in the sent
  -- queue has left the store, all else is where it was and each message's count is one less for
  -- each of its acknowledgements; or an error other than a conflict is returned, and the database
  -- and the counts are what they were.
  pub do_ack_refines :
      (acks : List UidDest) (s : Store D T) (w : Tracker)
      → IsAt s w
      → (r : Outcome Error (Unit {0}) × Store D T) × (do_ack acks s ≡ some r)
        × Landed s (ack_spec w acks) (dec_all (uids acks) s.counts) r
  unfolding do_ack dec_all
  do_ack_refines [] s w rep = ((ok tt, s), refl, (rep, refl))
  do_ack_refines (a ∷ acks) s w rep =
      let (r, ends, h) =
        settle-Landed _ (ack_spec w (a ∷ acks)) (ack_helper (a ∷ acks)) s
          (ack_helper-Spends (a ∷ acks)) (ack_helper_lem (a ∷ acks) (b.get s.db))
          (acked-Represents (a ∷ acks) (b.get s.db) w rep) in
      (acked (a ∷ acks) r, rw ends, acked-Landed (a ∷ acks) s (ack_spec w (a ∷ acks)) r h)

  -- From a store in state `w`, where every refused pair is in the sent or the failed queue, `doNACK`
  -- ends. Either every refused pair is in the failed queue and all else is where it was, or an
  -- error other than a conflict is returned and nothing has changed.
  pub do_nack_refines :
      (now : ℤ) (nacks : List UidDest) (s : Store D T) (w : Tracker)
      → IsAt s w
      → AllSent failed w nacks
      → (r : Outcome Error (Unit {0}) × Store D T) × (do_nack now nacks s ≡ some r)
        × Landed s (move_spec failed w nacks) s.counts r
  unfolding do_nack
  do_nack_refines now [] s w rep all = ((ok tt, s), refl, (rep, refl))
  do_nack_refines now (a ∷ nacks) s w rep all =
      settle-Landed _ (move_spec failed w (a ∷ nacks)) (nack_helper now (a ∷ nacks)) s
        (nack_helper-Spends now (a ∷ nacks)) (nack_helper_lem (b.get s.db) now (a ∷ nacks))
        (moved-Represents (a ∷ nacks) failed (time_to_bytes now) (b.get s.db) w all rep)

  -- From a store in state `w`, where every pair is in the sent or the permanent-errors queue,
  -- `doPermanentError` ends. Either every pair is in the permanent-errors queue and all else, the
  -- counts too, is what it was, or an error other than a conflict is returned and nothing has
  -- changed but badger's answers to come.
  pub do_permanent_error_refines :
      (now : ℤ) (pes : List UidDest) (s : Store D T) (w : Tracker)
      → IsAt s w
      → AllSent perm_errors w pes
      → (r : Outcome Error (Unit {0}) × Store D T) × (do_permanent_error now pes s ≡ some r)
        × Landed s (move_spec perm_errors w pes) s.counts r
  unfolding do_permanent_error
  do_permanent_error_refines now [] s w rep all = ((ok tt, s), refl, (rep, refl))
  do_permanent_error_refines now (a ∷ pes) s w rep all =
      settle-Landed _ (move_spec perm_errors w (a ∷ pes)) (perm_helper now (a ∷ pes)) s
        (perm_helper-Spends now (a ∷ pes)) (perm_helper_lem (b.get s.db) now (a ∷ pes))
        (moved-Represents (a ∷ pes) perm_errors (time_to_bytes now) (b.get s.db) w all rep)
