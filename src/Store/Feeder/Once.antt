-- ===== src/Store/Feeder/Once.antt =====
-- Each retrieved message is handed over once, or refused at the end.
use mathlib.Core.Path.{subst}
use skewer.Prelude.{
  true, false, [], ◌∷◌, ◌++◌, ◌≡◌, refl, ap, ◌∙◌, arith, ==_iff, if◌then◌else◌, Bool-cases, inl,
  inr,
}
use skewer.Conf.Destination.{Destination, letter, letter-injective}
use skewer.Store.Spec.{same_dest}
use skewer.Store.Feeder.{
  Lane, Retriever, waits, retrieves, carries, finds_none, stops, returned, System, at, Label, Step,
  load, hand, clear, leave_looking, leave_holding, check, get, get_none, get_fails, put, flag,
  cancel, stop, finish, ingest, push_back, select, Reachable, begins, steps,
}
use skewer.Store.Feeder.Lanes.{
  Hand, idle, free, carrying, over, LaneOk, unsent, LaneOk-load, LaneOk-hand, LaneOk-clear,
  LaneOk-leave, LaneOk-check, LaneOk-give_up, LaneOk-get, LaneOk-put, LaneOk-finish, LaneOk-aside,
  LaneOk-over,
}

abbrev pub hand_of : Retriever → Destination → Hand
hand_of waits d = idle
hand_of (retrieves e) d = if same_dest e d then free else idle
hand_of (carries e ms) d = if same_dest e d then carrying ms else idle
hand_of (finds_none e) d = idle
hand_of stops d = idle
hand_of returned d = over

pub same_dest_self : (e : Destination) → same_dest e e ≡ true
same_dest_self e = ground arith

-- A property of every destination, by one and the others.
pub by_dest :
    (P : Destination → Type 0) (e : Destination)
    → P e
    → ((d : Destination) → same_dest e d ≡ false → P d)
    → (d : Destination) → P d
by_dest P e h k d = elim (Bool-cases (same_dest e d)) [
  | inl same ↦ subst P (letter-injective e d ((==_iff (letter e) (letter d)).0 same)) h
  | inr differ ↦ k d differ
]

at-LaneOk :
    (hs : Destination → Hand) (e : Destination) (l : Lane) (lanes : Destination → Lane)
    → LaneOk (hs e) l
    → ((d : Destination) → same_dest e d ≡ false → LaneOk (hs d) (lanes d))
    → (d : Destination) → LaneOk (hs d) (at e l lanes d)
at-LaneOk hs e l lanes h k =
    by_dest (λ d. LaneOk (hs d) (at e l lanes d)) e (rw (same_dest_self e) h)
      (λ d differ. rw differ (k d differ))

abbrev pub SystemOk : System → Type 0
SystemOk s = (d : Destination) → LaneOk (hand_of s.retriever d) (s.lanes d)

at_hand :
    (s : System) (r : Retriever) (e : Destination) (h : Hand)
    → SystemOk s
    → s.retriever ≡ r
    → hand_of r e ≡ h
    → LaneOk h (s.lanes e)
at_hand s r e h k is here =
    subst (λ x. LaneOk x (s.lanes e)) (ap (λ t. hand_of t e) is ∙ here) (k e)

lane_free :
    (s : System) (d : Destination)
    → SystemOk s
    → s.retriever ≡ retrieves d
    → LaneOk free (s.lanes d)
lane_free s d ok is = at_hand s (retrieves d) d free ok is (rw (same_dest_self d) refl)

lane_idle :
    (s : System) (d : Destination)
    → SystemOk s
    → s.retriever ≡ retrieves d
    → (e : Destination) → same_dest d e ≡ false
    → LaneOk idle (s.lanes e)
lane_idle s d ok is e n = at_hand s (retrieves d) e idle ok is (rw n refl)

given_up :
    (s : System) (d : Destination)
    → SystemOk s
    → s.retriever ≡ retrieves d
    → (e : Destination) → LaneOk idle (s.lanes e)
given_up s d ok is =
    by_dest (λ e. LaneOk idle (s.lanes e)) d (LaneOk-give_up _ (lane_free s d ok is))
      (lane_idle s d ok is)

Step-SystemOk : (s s' : System) (k : Label) → SystemOk s → Step s k s' → SystemOk s'
Step-SystemOk s s' k ok (load d m ms sel top full) =
    at-LaneOk (hand_of s.retriever) d _ s.lanes (LaneOk-load _ _ m ms (ok d) top full) (λ e n. ok e)
Step-SystemOk s s' k ok (hand d ms holds) =
    at-LaneOk (hand_of s.retriever) d _ s.lanes (LaneOk-hand _ _ ms (ok d) holds) (λ e n. ok e)
Step-SystemOk s s' k ok (clear d behind) =
    at-LaneOk (hand_of s.retriever) d _ s.lanes (LaneOk-clear _ _ (ok d) behind) (λ e n. ok e)
Step-SystemOk s s' k ok (leave_looking d done top) =
    at-LaneOk (hand_of s.retriever) d _ s.lanes
      (LaneOk-leave _ _ (ok d) (ap (λ p. unsent p (s.lanes d).bucket) top)) (λ e n. ok e)
Step-SystemOk s s' k ok (leave_holding d ms done holds) =
    at-LaneOk (hand_of s.retriever) d _ s.lanes
      (LaneOk-leave _ _ (ok d) (ap (λ p. unsent p (s.lanes d).bucket) holds)) (λ e n. ok e)
Step-SystemOk s s' k ok (check d is sel empty low) =
    by_dest (λ e. LaneOk (hand_of (retrieves d) e) (s.lanes e)) d
      (rw (same_dest_self d) (LaneOk-check _ (at_hand s waits d idle ok is refl) empty))
      (λ e n. rw n (at_hand s waits e idle ok is refl))
Step-SystemOk s s' k ok (get d m ms left is) =
    at-LaneOk (hand_of (carries d (m ∷ ms))) d _ s.lanes
      (rw (same_dest_self d) (LaneOk-get _ (m ∷ ms) left (lane_free s d ok is)))
      (λ e n. rw n (lane_idle s d ok is e n))
Step-SystemOk s s' k ok (get_none d left is) =
    at-LaneOk (hand_of (finds_none d)) d _ s.lanes
      (LaneOk-aside _ _ (s.lanes d).no_messages _ (given_up s d ok is d))
      (λ e n. given_up s d ok is e)
Step-SystemOk s s' k ok (get_fails d is) = given_up s d ok is
Step-SystemOk s s' k ok (put d ms is) =
    at-LaneOk (hand_of waits) d _ s.lanes
      (LaneOk-put _ ms
        (at_hand s (carries d ms) d (carrying ms) ok is (rw (same_dest_self d) refl)))
      (λ e n. at_hand s (carries d ms) e idle ok is (rw n refl))
Step-SystemOk s s' k ok (flag d is) =
    at-LaneOk (hand_of waits) d _ s.lanes
      (LaneOk-aside _ _ true _ (at_hand s (finds_none d) d idle ok is refl))
      (λ e n. at_hand s (finds_none d) e idle ok is refl)
Step-SystemOk s s' k ok cancel = ok
Step-SystemOk s s' k ok (stop is done) =
    λ d. subst (λ r. LaneOk (hand_of r d) (s.lanes d)) is (ok d)
Step-SystemOk s s' k ok (finish is last) =
    λ d. LaneOk-finish _ (at_hand s stops d idle ok is refl) (last d)
Step-SystemOk s s' k ok (ingest d us) =
    at-LaneOk (hand_of s.retriever) d _ s.lanes (LaneOk-aside _ _ false _ (ok d)) (λ e n. ok e)
Step-SystemOk s s' k ok (push_back d us) =
    at-LaneOk (hand_of s.retriever) d _ s.lanes (LaneOk-aside _ _ (s.lanes d).no_messages _ (ok d))
      (λ e n. ok e)
Step-SystemOk s s' k ok (select sel) = ok

Reachable-SystemOk : (s : System) → Reachable s → SystemOk s
Reachable-SystemOk s (begins ready) = λ d. record { account = refl; phase_ok = tt; hand_ok = refl }
Reachable-SystemOk s (steps k r step) = Step-SystemOk _ s k (Reachable-SystemOk _ r) step

-- Under every interleaving of the goroutines, when `retrieveAndForward` has returned, the messages
-- that `retrieve` gave for a destination are exactly those that were sent to its channel, in their
-- order, followed by those that were refused at the end, and its bucket is empty: none is lost, sent
-- twice, or sent and refused.
pub feed_once :
    (s : System)
    → Reachable s
    → s.retriever ≡ returned
    → (d : Destination)
    → ((s.lanes d).retrieved ≡ (s.lanes d).sent ++ (s.lanes d).nacked) × ((s.lanes d).bucket ≡ [])
feed_once s r is d =
    LaneOk-over (s.lanes d) (at_hand s returned d over (Reachable-SystemOk s r) is refl)
