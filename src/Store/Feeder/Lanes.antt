-- ===== src/Store/Feeder/Lanes.antt =====
-- What the goroutines keep of one destination: no message is handed over twice or dropped.
use mathlib.Core.Path.{subst}
use skewer.Prelude.{
  Bool, true, false, List, [], ◌∷◌, ◌++◌, ◌≡◌, refl, ap, sym, ◌∙◌, Bytes, append_assoc, append-nil,
}
use skewer.Store.Feeder.{Phase, looking, holding, handed, ended, Lane, nack_left}

-- What the retrieving goroutine does for a destination.
pub data Hand : Type 0 where
  idle free : Hand
  carrying : List Bytes → Hand
  over : Hand

abbrev pub carried : Hand → List Bytes
carried (carrying ms) = ms
carried _ = []

abbrev pub unsent : Phase → List Bytes → List Bytes
unsent handed b = []
unsent _ b = b

abbrev filled : List Bytes → Bool
filled [] = false
filled (m ∷ ms) = true

abbrev PhaseOk : Phase → List Bytes → Type 0
PhaseOk looking b = Unit
PhaseOk (holding ms) b = (b ≡ ms) × (filled b ≡ true)
PhaseOk handed b = filled b ≡ true
PhaseOk ended b = Unit

abbrev HandOk : Hand → Lane → Type 0
HandOk idle l = l.nacked ≡ []
HandOk free l = (l.nacked ≡ []) × (l.bucket ≡ [])
HandOk (carrying ms) l = (l.nacked ≡ []) × (l.bucket ≡ [])
HandOk over l = (l.phase ≡ ended) × (l.bucket ≡ [])

-- The messages that `retrieve` gave are those that were sent, then those in the bucket that are not,
-- then those refused at the end or on their way to the bucket.
pub record LaneOk (h : Hand) (l : Lane) : Type 0 where
  pub account : l.retrieved ≡ l.sent ++ (unsent l.phase l.bucket ++ (l.nacked ++ carried h))
  pub phase_ok : PhaseOk l.phase l.bucket
  pub hand_ok : HandOk h l

-- The goroutine of the destination changes its place alone.
pub LaneOk-moves :
    (h : Hand) (l : Lane) (p : Phase)
    → LaneOk h l
    → unsent l.phase l.bucket ≡ unsent p l.bucket
    → PhaseOk p l.bucket
    → ((l.phase ≡ ended) → p ≡ ended)
    → LaneOk h (record l { phase = p })
LaneOk-moves h l p k same fits last = record {
  account = k.account ∙ ap (λ x. l.sent ++ (x ++ (l.nacked ++ carried h))) same;
  phase_ok = fits;
  hand_ok = moved h k.hand_ok;
}
  where
    moved : (h : Hand) → HandOk h l → HandOk h (record l { phase = p })
    moved idle a = a
    moved free a = a
    moved (carrying ms) a = a
    moved over a = (last a.0, a.1)

pub LaneOk-load :
    (h : Hand) (l : Lane) (m : Bytes) (ms : List Bytes)
    → LaneOk h l
    → l.phase ≡ looking
    → l.bucket ≡ m ∷ ms
    → LaneOk h (record l { phase = holding (m ∷ ms) })
LaneOk-load h l m ms k at_top full =
    LaneOk-moves h l (holding (m ∷ ms)) k (ap (λ p. unsent p l.bucket) at_top)
      (full, ap filled full) (λ e. absurd cc)

pub LaneOk-hand :
    (h : Hand) (l : Lane) (ms : List Bytes)
    → LaneOk h l
    → l.phase ≡ holding ms
    → LaneOk h (record l { phase = handed; sent = l.sent ++ ms })
LaneOk-hand h l ms k holds =
    let here : (l.bucket ≡ ms) × (filled l.bucket ≡ true) =
      subst (λ p. PhaseOk p l.bucket) holds k.phase_ok in
    let rest = l.nacked ++ carried h in
    record {
      account =
          k.account
          ∙ ap (λ p. l.sent ++ (unsent p l.bucket ++ rest)) holds
          ∙ ap (λ b. l.sent ++ (b ++ rest)) here.0
          ∙ sym (append_assoc l.sent ms rest);
      phase_ok = here.1;
      hand_ok = moved h k.hand_ok;
    }
  where
    moved : (h : Hand) → HandOk h l → HandOk h (record l { phase = handed; sent = l.sent ++ ms })
    moved idle a = a
    moved free a = a
    moved (carrying ns) a = a
    moved over a = absurd cc

pub LaneOk-clear :
    (h : Hand) (l : Lane)
    → LaneOk h l
    → l.phase ≡ handed
    → LaneOk h (record l { phase = looking; bucket = [] })
LaneOk-clear h l k behind = record {
  account = k.account ∙ ap (λ p. l.sent ++ (unsent p l.bucket ++ (l.nacked ++ carried h))) behind;
  phase_ok = tt;
  hand_ok = moved h k.hand_ok;
}
  where
    moved : (h : Hand) → HandOk h l → HandOk h (record l { phase = looking; bucket = [] })
    moved idle a = a
    moved free a = (a.0, refl)
    moved (carrying ns) a = (a.0, refl)
    moved over a = absurd cc

pub LaneOk-leave :
    (h : Hand) (l : Lane)
    → LaneOk h l
    → unsent l.phase l.bucket ≡ l.bucket
    → LaneOk h (record l { phase = ended })
LaneOk-leave h l k kept = LaneOk-moves h l ended k kept tt (λ e. refl)

pub LaneOk-check : (l : Lane) → LaneOk idle l → l.bucket ≡ [] → LaneOk free l
LaneOk-check l k empty = record {
  account = k.account;
  phase_ok = k.phase_ok;
  hand_ok = (k.hand_ok, empty);
}

pub LaneOk-give_up : (l : Lane) → LaneOk free l → LaneOk idle l
LaneOk-give_up l k = record { account = k.account; phase_ok = k.phase_ok; hand_ok = k.hand_ok.0 }

-- Nothing is in the bucket and nothing is refused.
none_left : (p : Phase) (b n : List Bytes) → b ≡ [] → n ≡ [] → unsent p b ++ (n ++ []) ≡ []
none_left looking b n h k = ap (λ x. x ++ (n ++ [])) h ∙ ap (λ x. x ++ []) k
none_left (holding ms) b n h k = ap (λ x. x ++ (n ++ [])) h ∙ ap (λ x. x ++ []) k
none_left handed b n h k = ap (λ x. x ++ []) k
none_left ended b n h k = ap (λ x. x ++ (n ++ [])) h ∙ ap (λ x. x ++ []) k

none_before : (p : Phase) (b n ms : List Bytes) → b ≡ [] → n ≡ [] → unsent p b ++ (n ++ ms) ≡ ms
none_before looking b n ms h k = rw (h, k) refl
none_before (holding ns) b n ms h k = rw (h, k) refl
none_before handed b n ms h k = rw k refl
none_before ended b n ms h k = rw (h, k) refl

pub LaneOk-get :
    (l : Lane) (ms left : List Bytes)
    → LaneOk free l
    → LaneOk (carrying ms) (record l { retrieved = l.retrieved ++ ms; ready = left })
LaneOk-get l ms left k = record {
  account =
      ap (λ r. r ++ ms)
        (k.account
          ∙ ap (λ r. l.sent ++ r) (none_left l.phase l.bucket l.nacked k.hand_ok.1 k.hand_ok.0)
          ∙ append-nil l.sent)
      ∙ ap (λ r. l.sent ++ r)
          (sym (none_before l.phase l.bucket l.nacked ms k.hand_ok.1 k.hand_ok.0));
  phase_ok = k.phase_ok;
  hand_ok = k.hand_ok;
}

-- With an empty bucket the goroutine has no batch.
unfilled :
    (p : Phase) (b ms : List Bytes) → PhaseOk p b → b ≡ [] → (unsent p ms ≡ ms) × PhaseOk p ms
unfilled looking b ms k h = (refl, tt)
unfilled (holding ns) b ms k h = absurd cc
unfilled handed b ms k h = absurd cc
unfilled ended b ms k h = (refl, tt)

pub LaneOk-put :
    (l : Lane) (ms : List Bytes) → LaneOk (carrying ms) l → LaneOk idle (record l { bucket = ms })
LaneOk-put l ms k =
    let (whole, fits) = unfilled l.phase l.bucket ms k.phase_ok k.hand_ok.1 in
    record {
      account =
          k.account
          ∙ ap (λ r. l.sent ++ r)
              (none_before l.phase l.bucket l.nacked ms k.hand_ok.1 k.hand_ok.0
                ∙ sym (rw (whole, k.hand_ok.0) (append-nil ms)));
      phase_ok = fits;
      hand_ok = k.hand_ok.0;
    }

pub LaneOk-finish : (l : Lane) → LaneOk idle l → l.phase ≡ ended → LaneOk over (nack_left l)
LaneOk-finish l k last = record {
  account =
      k.account
      ∙ ap (λ p. l.sent ++ (unsent p l.bucket ++ (l.nacked ++ []))) last
      ∙ ap (λ n. l.sent ++ (l.bucket ++ (n ++ []))) k.hand_ok
      ∙ ap (λ r. l.sent ++ r)
          (sym (
            ap (λ p. unsent p [] ++ ((l.nacked ++ l.bucket) ++ [])) last
            ∙ ap (λ n. (n ++ l.bucket) ++ []) k.hand_ok
            ∙ append-nil l.bucket
            ∙ sym (append-nil l.bucket)));
  phase_ok = subst (λ p. PhaseOk p []) (sym last) tt;
  hand_ok = (last, refl);
}

-- The flag and the ready queue are no part of the account.
pub LaneOk-aside :
    (h : Hand) (l : Lane) (f : Bool) (r : List Bytes)
    → LaneOk h l
    → LaneOk h (record l { no_messages = f; ready = r })
LaneOk-aside h l f r k = record {
  account = k.account;
  phase_ok = k.phase_ok;
  hand_ok = moved h k.hand_ok;
}
  where
    moved : (h : Hand) → HandOk h l → HandOk h (record l { no_messages = f; ready = r })
    moved idle a = a
    moved free a = a
    moved (carrying ms) a = a
    moved over a = a

pub LaneOk-over : (l : Lane) → LaneOk over l → (l.retrieved ≡ l.sent ++ l.nacked) × (l.bucket ≡ [])
LaneOk-over l k = (
  k.account
      ∙ ap (λ p. l.sent ++ (unsent p l.bucket ++ (l.nacked ++ []))) k.hand_ok.0
      ∙ ap (λ b. l.sent ++ (b ++ (l.nacked ++ []))) k.hand_ok.1
      ∙ ap (λ n. l.sent ++ n) (append-nil l.nacked),
  k.hand_ok.1,
)
