-- ===== src/Store/Retrieve/Contents.antt =====
-- What `tryRetrieveHelper` writes.
use skewer.Prelude.{true, none, List, [], ◌∷◌, ◌++◌, ◌≡◌, refl, arith, Bytes, elem, if◌then◌else◌}
use skewer.Conf.Destination.{Destination}
use skewer.Store.Badger.{Badger}
use skewer.Store.Badger.Triple.{Contents, Triple, Triple-pure, Triple-wrap, Triple-bind, Holds}
use skewer.Store.Badger.Ends.{Spends, Spends-pure, Spends-wrap, Spends-bind}
use skewer.Store.Partition.{true_bytes}
use skewer.Store.Partition.Keys.{ready, sent, queue, messages, prefix}
use skewer.Store.Partition.Effects.{
  put_all, remove_all, add_many_same_lem, delete_many_lem, add_many_same-Spends, delete_many-Spends,
}
use skewer.Store.Spec.{
  waiting, Tracker, send_all, take_all, Represents, tracker-same, covers-queue, covers-message,
  covers-message_queue, covers-messages,
}
use skewer.Store.Retrieve.{Fetched, drop_invalid, move_sent, write_fetched}

abbrev dropped_contents : Contents → Destination → List Bytes → Contents
dropped_contents o d invalid =
    remove_all (remove_all o (prefix (queue ready d)) invalid) (prefix messages) invalid

abbrev sent_contents : Contents → Destination → List Bytes → Contents
sent_contents o d uids =
    remove_all (put_all o (prefix (queue sent d)) uids true_bytes) (prefix (queue ready d)) uids

abbrev pub retrieved_contents : Contents → Destination → List Bytes → List Bytes → Contents
retrieved_contents o d uids invalid = sent_contents (dropped_contents o d invalid) d uids

-- The invalid messages leave the ready queue, the others go to the sent queue.
abbrev pub retrieved_spec : Tracker → Destination → List Bytes → List Bytes → Tracker
retrieved_spec w d uids invalid = send_all (take_all w d invalid ready) d uids (waiting sent)

pub Represents-retrieved :
    (o : Contents) (w : Tracker) (d : Destination) (uids invalid : List Bytes)
    → Represents o w
    → ((v : Bytes) → elem v uids ≡ true → w d v ≡ waiting ready)
    → Represents (retrieved_contents o d uids invalid) (retrieved_spec w d uids invalid)
Represents-retrieved o w d uids invalid rep from e v s = ground (
  arith,
  rep e v s,
  from v,
  tracker-same w d e v,
  covers-queue ready s d e uids v,
  covers-queue sent s d e uids v,
  covers-queue ready s d e invalid v,
  covers-message_queue s e invalid v,
)

pub retrieved-message :
    (o : Contents) (d : Destination) (uids invalid : List Bytes) (v : Bytes)
    → retrieved_contents o d uids invalid (prefix messages ++ v)
      ≡ (if elem v invalid then none else o (prefix messages ++ v))
retrieved-message o d uids invalid v = ground (
  arith,
  covers-message ready d uids v,
  covers-message sent d uids v,
  covers-message ready d invalid v,
  covers-messages invalid v,
)

module _ {D : Type 0} ⦃b : Badger D⦄ where
  drop_invalid_lem :
      (o : Contents) (d : Destination) (us : List Bytes)
      → Triple {D = D} (Holds o) (drop_invalid d us) (λ _. Holds (dropped_contents o d us))
  unfolding drop_invalid
  drop_invalid_lem o d [] = Triple-pure (Holds o) tt
  drop_invalid_lem o d (u ∷ us) =
      Triple-bind _ _ (Triple-wrap (delete_many_lem o (prefix (queue ready d)) (u ∷ us)))
        (λ _. Triple-wrap (delete_many_lem _ (prefix messages) (u ∷ us)))

  move_sent_lem :
      (o : Contents) (d : Destination) (us : List Bytes)
      → Triple {D = D} (Holds o) (move_sent d us) (λ _. Holds (sent_contents o d us))
  unfolding move_sent
  move_sent_lem o d [] = Triple-pure (Holds o) tt
  move_sent_lem o d (u ∷ us) =
      Triple-bind _ _
        (Triple-wrap (add_many_same_lem o (prefix (queue sent d)) (u ∷ us) true_bytes))
        (λ _. Triple-wrap (delete_many_lem _ (prefix (queue ready d)) (u ∷ us)))

  drop_invalid-Spends : (d : Destination) (us : List Bytes) → Spends {D = D} (drop_invalid d us)
  unfolding drop_invalid
  drop_invalid-Spends d [] = Spends-pure tt
  drop_invalid-Spends d (u ∷ us) =
      Spends-bind _ _ (Spends-wrap _ (delete_many-Spends (prefix (queue ready d)) (u ∷ us)))
        (λ _. Spends-wrap _ (delete_many-Spends (prefix messages) (u ∷ us)))

  move_sent-Spends : (d : Destination) (us : List Bytes) → Spends {D = D} (move_sent d us)
  unfolding move_sent
  move_sent-Spends d [] = Spends-pure tt
  move_sent-Spends d (u ∷ us) =
      Spends-bind _ _
        (Spends-wrap _ (add_many_same-Spends (prefix (queue sent d)) (u ∷ us) true_bytes))
        (λ _. Spends-wrap _ (delete_many-Spends (prefix (queue ready d)) (u ∷ us)))

  module _ {Msg : Type 0} where
    -- The transaction returns what it was given.
    pub write_fetched_lem :
        (o : Contents) (d : Destination) (r : Fetched Msg)
        → Triple {D = D}
            (Holds o)
            (write_fetched d r)
            (λ a x. Holds (retrieved_contents o d r.uids r.invalid) x × (a ≡ r))
    unfolding write_fetched
    write_fetched_lem o d r = Triple-bind _ _ (drop_invalid_lem o d r.invalid) (λ _.
        Triple-bind _ _ (move_sent_lem (dropped_contents o d r.invalid) d r.uids)
          (λ _. record { at = λ t h. (h, refl) }))

    pub write_fetched-Spends :
        (d : Destination) (r : Fetched Msg) → Spends {D = D} (write_fetched d r)
    unfolding write_fetched
    write_fetched-Spends d r =
        Spends-bind _ _ (drop_invalid-Spends d r.invalid)
          (λ _. Spends-bind _ _ (move_sent-Spends d r.uids) (λ _. Spends-pure r))
