-- ===== src/Store/Acks/Effects.antt =====
-- What the acknowledgements do to the database, and that their helpers end.
use skewer.Prelude.{List, [], ◌∷◌, ◌++◌, arith, Bytes}
use skewer.Prelude.Int.{ℤ}
use skewer.Conv.{time_to_bytes}
use skewer.Store.Badger.{Badger}
use skewer.Store.Badger.Triple.{
  Contents, Triple, Triple-pure, Triple-wrap, Triple-bind, Holds, Triple-set, Triple-delete,
}
use skewer.Store.Badger.Ends.{Spends, Spends-pure, Spends-wrap, Spends-bind}
use skewer.Store.Partition.{set, delete}
use skewer.Store.Partition.Keys.{QueueType, sent, failed, perm_errors, queue, prefix}
use skewer.Store.Partition.Effects.{put_all, remove_all, Triple-to, set-Spends, delete-Spends}
use skewer.Store.Acks.{UidDest, ack_helper, nack_all, nack_helper, perm_all, perm_helper}

abbrev pub acked_contents : Contents → List UidDest → Contents
acked_contents o [] = o
acked_contents o (a ∷ acks) =
    acked_contents (remove_all o (prefix (queue sent a.dest)) (a.uid ∷ [])) acks

-- Out of the sent queue, and into queue `q`.
abbrev pub moved_contents : QueueType → Bytes → Contents → List UidDest → Contents
moved_contents q stamp o [] = o
moved_contents q stamp o (a ∷ rest) =
    moved_contents q stamp
      (put_all (remove_all o (prefix (queue sent a.dest)) (a.uid ∷ [])) (prefix (queue q a.dest))
        (a.uid ∷ []) stamp)
      rest

module _ {D : Type 0} ⦃b : Badger D⦄ where
  pub delete_lem :
      (o : Contents) (p u : Bytes)
      → Triple {D = D} (Holds o) (delete p u) (λ _. Holds (remove_all o p (u ∷ [])))
  unfolding delete
  delete_lem o p u = Triple-to _ (λ j. ground arith) (Triple-delete o (p ++ u))

  pub set_lem :
      (o : Contents) (p u v : Bytes)
      → Triple {D = D} (Holds o) (set p u v) (λ _. Holds (put_all o p (u ∷ []) v))
  unfolding set
  set_lem o p u v = Triple-to _ (λ j. ground arith) (Triple-set o (p ++ u) v)

  pub ack_helper_lem :
      (acks : List UidDest) (o : Contents)
      → Triple {D = D} (Holds o) (ack_helper acks) (λ _. Holds (acked_contents o acks))
  unfolding ack_helper
  ack_helper_lem [] o = Triple-pure (Holds o) tt
  ack_helper_lem (a ∷ acks) o =
      Triple-bind _ _ (Triple-wrap (delete_lem o (prefix (queue sent a.dest)) a.uid))
        (λ _. ack_helper_lem acks _)

  nack_all_lem :
      (nacks : List UidDest) (o : Contents) (stamp : Bytes)
      → Triple {D = D}
          (Holds o)
          (nack_all stamp nacks)
          (λ _. Holds (moved_contents failed stamp o nacks))
  unfolding nack_all
  nack_all_lem [] o stamp = Triple-pure (Holds o) tt
  nack_all_lem (a ∷ nacks) o stamp =
      Triple-bind _ _ (Triple-wrap (delete_lem o (prefix (queue sent a.dest)) a.uid)) (λ _.
        Triple-bind _ _ (Triple-wrap (set_lem _ (prefix (queue failed a.dest)) a.uid stamp))
          (λ _. nack_all_lem nacks _ stamp))

  perm_all_lem :
      (pes : List UidDest) (o : Contents) (stamp : Bytes)
      → Triple {D = D}
          (Holds o)
          (perm_all stamp pes)
          (λ _. Holds (moved_contents perm_errors stamp o pes))
  unfolding perm_all
  perm_all_lem [] o stamp = Triple-pure (Holds o) tt
  perm_all_lem (a ∷ pes) o stamp =
      Triple-bind _ _ (Triple-wrap (delete_lem o (prefix (queue sent a.dest)) a.uid)) (λ _.
        Triple-bind _ _ (Triple-wrap (set_lem _ (prefix (queue perm_errors a.dest)) a.uid stamp))
          (λ _. perm_all_lem pes _ stamp))

  pub nack_helper_lem :
      (o : Contents) (now : ℤ) (nacks : List UidDest)
      → Triple {D = D}
          (Holds o)
          (nack_helper now nacks)
          (λ _. Holds (moved_contents failed (time_to_bytes now) o nacks))
  unfolding nack_helper
  nack_helper_lem o now nacks = nack_all_lem nacks o (time_to_bytes now)

  pub perm_helper_lem :
      (o : Contents) (now : ℤ) (pes : List UidDest)
      → Triple {D = D}
          (Holds o)
          (perm_helper now pes)
          (λ _. Holds (moved_contents perm_errors (time_to_bytes now) o pes))
  unfolding perm_helper
  perm_helper_lem o now pes = perm_all_lem pes o (time_to_bytes now)

  pub ack_helper-Spends : (acks : List UidDest) → Spends {D = D} (ack_helper acks)
  unfolding ack_helper
  ack_helper-Spends [] = Spends-pure tt
  ack_helper-Spends (a ∷ acks) =
      Spends-bind _ _ (Spends-wrap _ (delete-Spends (prefix (queue sent a.dest)) a.uid))
        (λ _. ack_helper-Spends acks)

  pub nack_helper-Spends : (now : ℤ) (nacks : List UidDest) → Spends {D = D} (nack_helper now nacks)
  unfolding nack_helper nack_all
  nack_helper-Spends now [] = Spends-pure tt
  nack_helper-Spends now (a ∷ nacks) =
      Spends-bind _ _ (Spends-wrap _ (delete-Spends (prefix (queue sent a.dest)) a.uid)) (λ _.
        Spends-bind _ _ (Spends-wrap _ (set-Spends (prefix (queue failed a.dest)) a.uid _))
          (λ _. nack_helper-Spends now nacks))

  pub perm_helper-Spends : (now : ℤ) (pes : List UidDest) → Spends {D = D} (perm_helper now pes)
  unfolding perm_helper perm_all
  perm_helper-Spends now [] = Spends-pure tt
  perm_helper-Spends now (a ∷ pes) =
      Spends-bind _ _ (Spends-wrap _ (delete-Spends (prefix (queue sent a.dest)) a.uid)) (λ _.
        Spends-bind _ _ (Spends-wrap _ (set-Spends (prefix (queue perm_errors a.dest)) a.uid _))
          (λ _. perm_helper-Spends now pes))
