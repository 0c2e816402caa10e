-- ===== src/Store/Acks/Round.antt =====
-- A round of `receiveAcks`: the three batches in their order, up to the first error.
use mathlib.Core.Path.{subst}
use skewer.Prelude.{Option, some, List, ◌≡◌, ◌⊎◌, inl, inr, refl, sym, ap, ◌∙◌}
use skewer.Prelude.Int.{ℤ}
use skewer.Prelude.Outcome.{Outcome, ok, err}
use skewer.Store.Badger.{Error, Badger}
use skewer.Store.Partition.Keys.{failed, perm_errors}
use skewer.Store.RefCount.{Trie, dec_all}
use skewer.Store.Spec.{Tracker}
use skewer.Store.State.{Store}
use skewer.Store.Landed.{IsAt, Landed}
use skewer.Store.Acks.{UidDest, uids, and_then, apply_acks}
use skewer.Store.Acks.Refine.{
  ack_spec, move_spec, AllSent, do_ack_refines, do_nack_refines, do_permanent_error_refines,
}

abbrev pub nacked_at : Tracker → (acks nacks : List UidDest) → Tracker
nacked_at w acks nacks = move_spec failed (ack_spec w acks) nacks

module _ {D T : Type 0} ⦃b : Badger D⦄ where
  same_IsAt :
      (s s' : Store D T) (w : Tracker) → s' ≡ record s { plan = s'.plan } → IsAt s w → IsAt s' w
  same_IsAt s s' w h at = subst (λ (x : Store D T). IsAt x w) (sym h) at

module _ {D T : Type 0} ⦃b : Badger D⦄ ⦃i : Trie T⦄ where
  -- A success is in state `w` with the counts `c`; an error is in one of the states before.
  abbrev Ends : Tracker → T → (Store D T → Type 0) → Outcome Error (Unit {0}) × Store D T → Type 0
  Ends w c Before (ok u, s') = IsAt s' w × (s'.counts ≡ c)
  Ends w c Before (err e, s') = Before s'

  Ends-weaken :
      (w : Tracker) (c : T) {P Q : Store D T → Type 0} (x : Outcome Error (Unit {0}) × Store D T)
      → ((s' : Store D T) → P s' → Q s')
      → Ends w c P x
      → Ends w c Q x
  Ends-weaken w c (ok u, s') k h = h
  Ends-weaken w c (err e, s') k h = k s' h

  -- One batch, and then what comes after it.
  and_then_lem :
      (s : Store D T) (w w' v : Tracker) (c c' : T) (Later : Store D T → Type 0)
      (f : Store D T → Option (Outcome Error (Unit {0}) × Store D T))
      (r : Outcome Error (Unit {0}) × Store D T)
      → IsAt s w
      → Landed s w' c' r
      → ((s' : Store D T)
          → IsAt s' w'
          → s'.counts ≡ c'
          → (x : Outcome Error (Unit {0}) × Store D T) × (f s' ≡ some x) × Ends v c Later x)
      → (x : Outcome Error (Unit {0}) × Store D T) × (and_then (some r) f ≡ some x)
        × Ends v c (λ s'. IsAt s' w ⊎ Later s') x
  and_then_lem s w w' v c c' Later f (ok u, s') at h later =
      let (x, ends, k) = later s' h.0 (ap (λ (y : Store D T). y.counts) h.1) in
      (x, ends, Ends-weaken v c x (λ s'' m. inr m) k)
  and_then_lem s w w' v c c' Later f (err e, s') at h later =
      ((err (Error.wrapped e), s'), refl, inl (same_IsAt s s' w h.0 at))

  -- How a round ends.
  abbrev pub RoundEnds :
      Store D T
      → Tracker
      → (acks nacks pes : List UidDest) → Outcome Error (Unit {0}) × Store D T
      → Type 0
  RoundEnds s w acks nacks pes =
      Ends (move_spec perm_errors (nacked_at w acks nacks) pes) (dec_all (uids acks) s.counts)
        (λ s'. IsAt s' w ⊎ (IsAt s' (ack_spec w acks) ⊎ (IsAt s' (nacked_at w acks nacks) ⊎ ⊥)))

  -- A round of `receiveAcks` on batches of pairs that are where they should be when their batch comes
  -- ends. Without an error all three batches are applied, and the counts are lowered for the
  -- acknowledged pairs; with an error the first batches are applied, each as a whole, and the others
  -- not at all.
  pub apply_acks_refines :
      (now later : ℤ) (acks nacks pes : List UidDest) (s : Store D T) (w : Tracker)
      → IsAt s w
      → AllSent failed (ack_spec w acks) nacks
      → AllSent perm_errors (nacked_at w acks nacks) pes
      → (r : Outcome Error (Unit {0}) × Store D T) × (apply_acks now later acks nacks pes s
          ≡ some r)
        × RoundEnds s w acks nacks pes r
  unfolding apply_acks
  apply_acks_refines now later acks nacks pes s w at all all' =
      let c = dec_all (uids acks) s.counts in
      let w1 = ack_spec w acks in
      let w2 = nacked_at w acks nacks in
      let w3 = move_spec perm_errors w2 pes in
      let (r, ends, h) = do_ack_refines acks s w at in
      rw ends (
        and_then_lem s w w1 w3 c c (λ s'. IsAt s' w1 ⊎ (IsAt s' w2 ⊎ ⊥)) _ r at h
          (λ s1 at1 c1.
            let (r1, ends1, h1) = do_nack_refines now nacks s1 w1 at1 all in
            rw ends1 (
              and_then_lem s1 w1 w2 w3 c s1.counts (λ s'. IsAt s' w2 ⊎ ⊥) _ r1 at1 h1
                (λ s2 at2 c2.
                  let (r2, ends2, h2) = do_permanent_error_refines later pes s2 w2 at2 all' in
                  rw ends2 (
                    and_then_lem s2 w2 w3 w3 c s2.counts (λ s'. ⊥) _ r2 at2 h2
                      (λ s3 at3 c3. ((ok tt, s3), refl, (at3, c3 ∙ c2 ∙ c1))))))))
