-- ===== src/Relp/Truth.antt =====
-- A response says what the parsers have said.
use skewer.Prelude.{
  ℕ, Bool, true, false, ◌||◌, Option, none, some, List, [], ◌∷◌, ◌++◌, ◌≡◌, refl, sym, arith, Bytes,
  All, inl, inr, Bool-cases, if◌then◌else◌, ◌==◌,
}
use mathlib.Core.Path.{subst}
use skewer.Relp.State.{Fsm, cooking, Response, Exchange, Conn}
use skewer.Relp.Scanner.{queued, noted}
use skewer.Relp.Responder.{
  forwarded, update, has, holds, mark_success, mark_failure, Write, wrote, timed_out, broken,
  answer, cook_next, polled, cook_from, cook,
}
use skewer.Relp.Steps.{
  Work, begins, ends, takes_succ, takes_fail, takes_both, cooks, scans, works, Reachable, starts,
  start, then_step,
}
use skewer.Relp.Queues.{mem, mem-append, told, told-append}
use skewer.Relp.Scanning.{scan-Kept}

-- What is forwarded, marked or written was told by a parser.
pub record Truthful (e : Exchange) : Type 0 where
  pub of_succ : (n : ℕ) → mem n e.succ ≡ true → told n true e.reported ≡ true
  pub of_fail : (n : ℕ) → mem n e.fail ≡ true → told n false e.reported ≡ true
  pub of_successes : (n : ℕ) → holds (e.successes n) ≡ true → told n true e.reported ≡ true
  pub of_failures : (n : ℕ) → holds (e.failures n) ≡ true → told n false e.reported ≡ true
  pub of_responses : All (λ r. told r.txnr r.good e.reported ≡ true) e.responses

told_more :
    (n : ℕ) (b : Bool) (xs ys : List Response) → told n b xs ≡ true → told n b (xs ++ ys) ≡ true
told_more n b xs ys h = ground (arith, told-append n b xs ys)

told_last :
    (n : ℕ) (b : Bool) (xs : List Response)
    → told n b (xs ++ record { txnr = n; good = b } ∷ []) ≡ true
told_last n true xs = ground (arith, told-append n true xs (record { txnr = n; good = true } ∷ []))
told_last n false xs =
    ground (arith, told-append n false xs (record { txnr = n; good = false } ∷ []))

responses_more :
    (rs xs ys : List Response)
    → All (λ r. told r.txnr r.good xs ≡ true) rs
    → All (λ r. told r.txnr r.good (xs ++ ys) ≡ true) rs
responses_more [] xs ys h = tt
responses_more (r ∷ rs) xs ys h = (told_more r.txnr r.good xs ys h.0, responses_more rs xs ys h.1)

responses_snoc :
    (rs xs : List Response) (r : Response)
    → All (λ s. told s.txnr s.good xs ≡ true) rs
    → told r.txnr r.good xs ≡ true
    → All (λ s. told s.txnr s.good xs ≡ true) (rs ++ r ∷ [])
responses_snoc [] xs r h k = (k, tt)
responses_snoc (s ∷ rs) xs r h k = (h.0, responses_snoc rs xs r h.1 k)

-- A number joins a queue as the parsers tell of it.
joined :
    (k n : ℕ) (b : Bool) (q : List ℕ) (reported : List Response)
    → (mem k q ≡ true → told k b reported ≡ true)
    → mem k (q ++ n ∷ []) ≡ true
    → told k b (reported ++ record { txnr = n; good = b } ∷ []) ≡ true
joined k n b q reported h m = elim (Bool-cases (n == k)) [
  | inl e ↦ ground (arith, told_last n b reported)
  | inr d ↦ told_more k b reported _ (h (ground (arith, mem-append k q (n ∷ []))))
]

forwarded-Truthful :
    (n : ℕ) (good : Bool) (e : Exchange) → Truthful e → Truthful (forwarded n good e)
unfolding forwarded
forwarded-Truthful n true e h = record {
  of_succ = λ k. joined k n true e.succ e.reported (h.of_succ k);
  of_fail = λ k m. told_more k false e.reported _ (h.of_fail k m);
  of_successes = λ k m. told_more k true e.reported _ (h.of_successes k m);
  of_failures = λ k m. told_more k false e.reported _ (h.of_failures k m);
  of_responses = responses_more e.responses e.reported _ h.of_responses;
}
forwarded-Truthful n false e h = record {
  of_succ = λ k m. told_more k true e.reported _ (h.of_succ k m);
  of_fail = λ k. joined k n false e.fail e.reported (h.of_fail k);
  of_successes = λ k m. told_more k true e.reported _ (h.of_successes k m);
  of_failures = λ k m. told_more k false e.reported _ (h.of_failures k m);
  of_responses = responses_more e.responses e.reported _ h.of_responses;
}

-- A step that writes none of these fields.
alike :
    (e d : Exchange)
    → Truthful e
    → d.succ ≡ e.succ
    → d.fail ≡ e.fail
    → d.successes ≡ e.successes
    → d.failures ≡ e.failures
    → d.responses ≡ e.responses
    → d.reported ≡ e.reported
    → Truthful d
alike e d h a b c f g r = record {
  of_succ = rw (a, r) h.of_succ;
  of_fail = rw (b, r) h.of_fail;
  of_successes = rw (c, r) h.of_successes;
  of_failures = rw (f, r) h.of_failures;
  of_responses = rw (g, r) h.of_responses;
}

queued-Truthful :
    (msiz : ℕ) (full : Bool) (n : ℕ) (text : Bytes) (e : Exchange)
    → Truthful e
    → Truthful (queued msiz full n text (noted n e))
unfolding queued noted forwarded
queued-Truthful msiz full n [] e h =
    alike (forwarded n true e) (queued msiz full n [] (noted n e)) (forwarded-Truthful n true e h)
      refl refl refl refl refl refl
queued-Truthful msiz full n (x ∷ text) e h =
    alike e (queued msiz full n (x ∷ text) (noted n e)) h (ground arith) (ground arith)
      (ground arith) (ground arith) (ground arith) (ground arith)

-- A key is set, where the parsers have told of it or the value is false.
updated :
    (f : ℕ → Option Bool) (n k : ℕ) (v b : Bool) (reported : List Response)
    → (v ≡ true → told n b reported ≡ true)
    → (holds (f k) ≡ true → told k b reported ≡ true)
    → holds (update f n v k) ≡ true
    → told k b reported ≡ true
unfolding update
updated f n k v b reported h g m = elim (Bool-cases (k == n)) [
  | inl e ↦
      let here : k ≡ n = ground arith in
      rw here (h (subst (λ (c : Bool). holds (if c then some v else f k) ≡ true) e m))
  | inr d ↦ g (subst (λ (c : Bool). holds (if c then some v else f k) ≡ true) d m)
]

set_success :
    (n : ℕ) (v : Bool) (e : Exchange)
    → (v ≡ true → told n true e.reported ≡ true)
    → Truthful e
    → Truthful (record e { successes = update e.successes n v })
set_success n v e t h = record {
  of_succ = h.of_succ;
  of_fail = h.of_fail;
  of_successes = λ k. updated e.successes n k v true e.reported t (h.of_successes k);
  of_failures = h.of_failures;
  of_responses = h.of_responses;
}

set_failure :
    (n : ℕ) (v : Bool) (e : Exchange)
    → (v ≡ true → told n false e.reported ≡ true)
    → Truthful e
    → Truthful (record e { failures = update e.failures n v })
set_failure n v e t h = record {
  of_succ = h.of_succ;
  of_fail = h.of_fail;
  of_successes = h.of_successes;
  of_failures = λ k. updated e.failures n k v false e.reported t (h.of_failures k);
  of_responses = h.of_responses;
}

mark_success-Truthful :
    (n : ℕ) (e : Exchange)
    → told n true e.reported ≡ true
    → Truthful e
    → Truthful (mark_success n e)
unfolding mark_success
mark_success-Truthful n e t h = elim (Bool-cases (has (e.successes n) || has (e.failures n))) [
  | inl old ↦ rw old h
  | inr new ↦ rw new (set_success n true e (λ _. t) h)
]

mark_failure-Truthful :
    (n : ℕ) (e : Exchange)
    → told n false e.reported ≡ true
    → Truthful e
    → Truthful (mark_failure n e)
unfolding mark_failure
mark_failure-Truthful n e t h = elim (Bool-cases (has (e.successes n) || has (e.failures n))) [
  | inl old ↦ rw old h
  | inr new ↦ rw new (set_failure n true e (λ _. t) h)
]

mark_success-reported : (n : ℕ) (e : Exchange) → (mark_success n e).reported ≡ e.reported
unfolding mark_success
mark_success-reported n e = ground arith

head_told :
    (n : ℕ) (rest q : List ℕ) (b : Bool) (reported : List Response)
    → q ≡ n ∷ rest
    → ((k : ℕ) → mem k q ≡ true → told k b reported ≡ true)
    → told n b reported ≡ true
head_told n rest q b reported e h = h n (rw e (ground arith))

popped :
    (n : ℕ) (rest q : List ℕ) (b : Bool) (reported : List Response)
    → q ≡ n ∷ rest
    → ((k : ℕ) → mem k q ≡ true → told k b reported ≡ true)
    → (k : ℕ) → mem k rest ≡ true
    → told k b reported ≡ true
popped n rest q b reported e h k m = h k (rw e (ground arith))

pop_both :
    (rest rest' : List ℕ) (e : Exchange)
    → ((k : ℕ) → mem k rest ≡ true → told k true e.reported ≡ true)
    → ((k : ℕ) → mem k rest' ≡ true → told k false e.reported ≡ true)
    → Truthful e
    → Truthful (record e { phase = cooking; succ = rest; fail = rest' })
pop_both rest rest' e a b h = record {
  of_succ = a;
  of_fail = b;
  of_successes = h.of_successes;
  of_failures = h.of_failures;
  of_responses = h.of_responses;
}

answer-Truthful :
    (w : Write) (good : Bool) (n : ℕ) (e : Exchange)
    → told n good e.reported ≡ true
    → Truthful e
    → Truthful (answer w good n e)
unfolding answer
answer-Truthful wrote true n e t h =
    let set = set_success n false e (λ b. absurd (cc)) h in
    record {
      of_succ = set.of_succ;
      of_fail = set.of_fail;
      of_successes = set.of_successes;
      of_failures = set.of_failures;
      of_responses = responses_snoc e.responses e.reported _ h.of_responses t;
    }
answer-Truthful wrote false n e t h =
    let set = set_failure n false e (λ b. absurd (cc)) h in
    record {
      of_succ = set.of_succ;
      of_fail = set.of_fail;
      of_successes = set.of_successes;
      of_failures = set.of_failures;
      of_responses = responses_snoc e.responses e.reported _ h.of_responses t;
    }
answer-Truthful timed_out good n e t h = h
answer-Truthful broken good n e t h = alike e _ h refl refl refl refl refl refl

cook_next-Truthful : (w : Write) (n : ℕ) (e : Exchange) → Truthful e → Truthful (cook_next w n e)
unfolding cook_next
cook_next-Truthful w n e h = elim (Bool-cases (holds (e.successes n))) [
  | inl good ↦ rw good (answer-Truthful w true n e (h.of_successes n good) h)
  | inr other ↦ rw other (elim (Bool-cases (holds (e.failures n))) [
    | inl bad ↦ rw bad (answer-Truthful w false n e (h.of_failures n bad) h)
    | inr unknown ↦ rw unknown (alike e _ h refl refl refl refl refl refl)
  ])
]

polled-Truthful :
    (w : Write) (comm : List ℕ) (e : Exchange) → Truthful e → Truthful (polled w comm e)
unfolding polled
polled-Truthful w [] e h = alike e _ h refl refl refl refl refl refl
polled-Truthful w (n ∷ comm) e h =
    cook_next-Truthful w n (record e { next = some n; comm = comm })
      (alike e _ h refl refl refl refl refl refl)

cook_from-Truthful :
    (w : Write) (o : Option ℕ) (e : Exchange) → Truthful e → Truthful (cook_from w o e)
unfolding cook_from
cook_from-Truthful w (some n) e h = cook_next-Truthful w n e h
cook_from-Truthful w none e h = polled-Truthful w e.comm e h

cook-Truthful : (w : Write) (e : Exchange) → Truthful e → Truthful (cook w e)
unfolding cook
cook-Truthful w e h = cook_from-Truthful w e.next e h

Work-Truthful : {e d : Exchange} → Work e d → Truthful e → Truthful d
Work-Truthful {e} (begins r rest q eq) h =
    subst Truthful (sym eq) (alike e _ h refl refl refl refl refl refl)
Work-Truthful {e} (ends before after r good q eq) h = subst Truthful (sym eq) (
    forwarded-Truthful r.txnr good (record e { parsing = before ++ after })
      (alike e _ h refl refl refl refl refl refl))
Work-Truthful {e} (takes_succ n rest w q eq) h = subst Truthful (sym eq) (
    mark_success-Truthful n _ (head_told n rest e.succ true e.reported q h.of_succ)
      (pop_both rest e.fail e (popped n rest e.succ true e.reported q h.of_succ) h.of_fail h))
Work-Truthful {e} (takes_fail n rest w q eq) h = subst Truthful (sym eq) (
    mark_failure-Truthful n _ (head_told n rest e.fail false e.reported q h.of_fail)
      (pop_both e.succ rest e h.of_succ (popped n rest e.fail false e.reported q h.of_fail) h))
Work-Truthful {e} (takes_both n m rest rest' w q q' eq) h =
    let popped_e = record e { phase = cooking; succ = rest; fail = rest' } in
    subst Truthful (sym eq) (
      mark_failure-Truthful m (mark_success n popped_e)
        (rw (mark_success-reported n popped_e)
          (head_told m rest' e.fail false e.reported q' h.of_fail))
        (mark_success-Truthful n popped_e (head_told n rest e.succ true e.reported q h.of_succ) (
          pop_both rest rest' e (popped n rest e.succ true e.reported q h.of_succ)
            (popped m rest' e.fail false e.reported q' h.of_fail) h)))
Work-Truthful {e} (cooks w q eq) h = subst Truthful (sym eq) (cook-Truthful w e h)

start-Truthful : Truthful start.exchange
start-Truthful = record {
  of_succ = λ n h. absurd (cc);
  of_fail = λ n h. absurd (cc);
  of_successes = λ n h. absurd (cc);
  of_failures = λ n h. absurd (cc);
  of_responses = tt;
}

pub Reachable-Truthful : {f : Fsm} {msiz : ℕ} {c : Conn} → Reachable f msiz c → Truthful c.exchange
Reachable-Truthful starts = start-Truthful
Reachable-Truthful {f} {msiz} (then_step {c = c} r (scans full l going eq)) =
    subst (λ d. Truthful d.exchange) (sym eq)
      (scan-Kept (λ p e. Truthful e) (λ p t n e acc h. h)
        (λ p t n e m full' text acc h. queued-Truthful m full' n text e h) msiz full f l c
        (Reachable-Truthful r))
Reachable-Truthful (then_step r (works w eq)) =
    subst (λ d. Truthful d.exchange) (sym eq) (Work-Truthful w (Reachable-Truthful r))
