-- ===== src/Relp/Marks.antt =====
-- `handleResponses` keeps the account of the messages.
use skewer.Prelude.{
  ℕ, Bool, true, false, ◌||◌, Option, none, some, List, [], ◌∷◌, ◌++◌, ◌≡◌, refl, sym, ap, ◌∙◌,
  arith, inl, inr, Bool-cases, if◌then◌else◌, ◌==◌,
}
use mathlib.Core.Path.{subst}
use skewer.Relp.State.{Response, Exchange, waiting, cooking}
use skewer.Relp.Responder.{
  update, has, holds, mark_success, mark_failure, Write, wrote, timed_out, broken, answer,
  cook_next, polled, cook_from, cook,
}
use skewer.Relp.Steps.{Work, begins, ends, takes_succ, takes_fail, takes_both, cooks}
use skewer.Relp.Queues.{mem, answered, answered-append, listed, mem-append}
use skewer.Relp.Account.{Accounted, begins-Accounted, ends-Accounted}

takes_succ-Accounted :
    (n : ℕ) (rest : List ℕ) (e : Exchange)
    → e.succ ≡ n ∷ rest
    → Accounted e
    → Accounted (mark_success n (record e { phase = cooking; succ = rest }))
unfolding mark_success update
takes_succ-Accounted n rest e q h =
    let succ = λ (k : ℕ). ap (mem k) q in
    elim (Bool-cases (has (e.successes n) || has (e.failures n))) [
      | inl old ↦ rw old (record {
        account = λ k. ground (arith, h.account k, succ k);
        unmarked = h.unmarked;
        idle = λ p. absurd (cc);
        told_received = h.told_received;
        lost_apart = h.lost_apart;
      })
      | inr new ↦ rw new (record {
        account = λ k. ground (arith, h.account k, succ k);
        unmarked = λ k m. ground (arith, h.unmarked k);
        idle = λ p. absurd (cc);
        told_received = h.told_received;
        lost_apart = h.lost_apart;
      })
    ]

takes_fail-Accounted :
    (n : ℕ) (rest : List ℕ) (e : Exchange)
    → e.fail ≡ n ∷ rest
    → Accounted e
    → Accounted (mark_failure n (record e { phase = cooking; fail = rest }))
unfolding mark_failure update
takes_fail-Accounted n rest e q h =
    let fail = λ (k : ℕ). ap (mem k) q in
    elim (Bool-cases (has (e.successes n) || has (e.failures n))) [
      | inl old ↦ rw old (record {
        account = λ k. ground (arith, h.account k, fail k);
        unmarked = h.unmarked;
        idle = λ p. absurd (cc);
        told_received = h.told_received;
        lost_apart = h.lost_apart;
      })
      | inr new ↦ rw new (record {
        account = λ k. ground (arith, h.account k, fail k);
        unmarked = λ k m. ground (arith, h.unmarked k);
        idle = λ p. absurd (cc);
        told_received = h.told_received;
        lost_apart = h.lost_apart;
      })
    ]

-- The mark of a success leaves the other queue alone.
mark_success-apart :
    (n : ℕ) (rest : List ℕ) (e : Exchange)
    → record (mark_success n e) { phase = cooking; fail = rest }
      ≡ mark_success n (record e { phase = cooking; fail = rest })
unfolding mark_success
mark_success-apart n rest e = elim (Bool-cases (has (e.successes n) || has (e.failures n))) [
  | inl old ↦ rw old refl
  | inr new ↦ rw new refl
]

mark_success-fail : (n : ℕ) (e : Exchange) → (mark_success n e).fail ≡ e.fail
unfolding mark_success
mark_success-fail n e = ground arith

takes_both-Accounted :
    (n m : ℕ) (rest rest' : List ℕ) (e : Exchange)
    → e.succ ≡ n ∷ rest
    → e.fail ≡ m ∷ rest'
    → Accounted e
    → Accounted
        (mark_failure m (mark_success n (record e { phase = cooking; succ = rest; fail = rest' })))
takes_both-Accounted n m rest rest' e q q' h =
    let popped = record e { phase = cooking; succ = rest } in
    subst (λ d. Accounted (mark_failure m d)) (mark_success-apart n rest' popped)
      (takes_fail-Accounted m rest' (mark_success n popped) (mark_success-fail n popped ∙ q')
        (takes_succ-Accounted n rest e q h))

answered_last :
    (k n : ℕ) (rs : List Response) (good : Bool)
    → mem k (answered (rs ++ record { txnr = n; good = good } ∷ []))
      ≡ (mem k (answered rs) || n == k)
answered_last k n rs good =
    rw (answered-append rs (record { txnr = n; good = good } ∷ []))
      (ground (arith, mem-append k (answered rs) (n ∷ [])))

answer-Accounted :
    (w : Write) (good : Bool) (n : ℕ) (e : Exchange)
    → e.phase ≡ cooking
    → (if good then holds (e.successes n) else holds (e.failures n)) ≡ true
    → Accounted e
    → Accounted (answer w good n e)
unfolding answer update
answer-Accounted wrote true n e p t h = record {
  account = λ k. ground (arith, h.account k);
  unmarked = λ k m. rw (answered_last k n e.responses true) (ground (arith, h.unmarked k));
  idle = λ q. absurd (cc (p, q));
  told_received = h.told_received;
  lost_apart = h.lost_apart;
}
answer-Accounted wrote false n e p t h = record {
  account = λ k. ground (arith, h.account k);
  unmarked = λ k m. rw (answered_last k n e.responses false) (ground (arith, h.unmarked k));
  idle = λ q. absurd (cc (p, q));
  told_received = h.told_received;
  lost_apart = h.lost_apart;
}
answer-Accounted timed_out good n e p t h = h
answer-Accounted broken good n e p t h = record {
  account = h.account;
  unmarked = h.unmarked;
  idle = λ q. absurd (cc);
  told_received = h.told_received;
  lost_apart = h.lost_apart;
}

-- `handleResponses` goes to wait, where the next message cannot be answered.
waits-Accounted :
    (e : Exchange)
    → ((n : ℕ) (rest : List ℕ)
        → listed e.next ++ e.comm ≡ n ∷ rest
        → (holds (e.successes n) || holds (e.failures n)) ≡ false)
    → Accounted e
    → Accounted (record e { phase = waiting })
waits-Accounted e f h = record {
  account = h.account;
  unmarked = h.unmarked;
  idle = λ p. f;
  told_received = h.told_received;
  lost_apart = h.lost_apart;
}

cook_next-Accounted :
    (w : Write) (n : ℕ) (e : Exchange)
    → e.phase ≡ cooking
    → e.next ≡ some n
    → Accounted e
    → Accounted (cook_next w n e)
unfolding cook_next
cook_next-Accounted w n e p next h = elim (Bool-cases (holds (e.successes n))) [
  | inl good ↦ rw good (answer-Accounted w true n e p good h)
  | inr other ↦ rw other (elim (Bool-cases (holds (e.failures n))) [
    | inl bad ↦ rw bad (answer-Accounted w false n e p bad h)
    | inr unknown ↦ rw unknown (
        waits-Accounted e
          (λ k rest q.
            let q' : n ∷ e.comm ≡ k ∷ rest = subst (λ o. listed o ++ e.comm ≡ k ∷ rest) next q in
            let here : k ≡ n = cc q' in rw here (ground arith))
          h)
  ])
]

polled-Accounted :
    (w : Write) (comm : List ℕ) (e : Exchange)
    → e.phase ≡ cooking
    → e.next ≡ none
    → e.comm ≡ comm
    → Accounted e
    → Accounted (polled w comm e)
unfolding polled
polled-Accounted w [] e p next q h =
    waits-Accounted e
      (λ k rest r.
        let r' : e.comm ≡ k ∷ rest = subst (λ o. listed o ++ e.comm ≡ k ∷ rest) next r in
        absurd (cc (r', q)))
      h
polled-Accounted w (n ∷ comm) e p next q h =
    cook_next-Accounted w n (record e { next = some n; comm = comm }) p refl
      (record {
        account = h.account;
        unmarked = h.unmarked;
        idle = λ r. absurd (cc (p, r));
        told_received = h.told_received;
        lost_apart = h.lost_apart;
      })

cook_from-Accounted :
    (w : Write) (o : Option ℕ) (e : Exchange)
    → e.phase ≡ cooking
    → e.next ≡ o
    → Accounted e
    → Accounted (cook_from w o e)
unfolding cook_from
cook_from-Accounted w (some n) e p next h = cook_next-Accounted w n e p next h
cook_from-Accounted w none e p next h = polled-Accounted w e.comm e p next refl h

pub Work-Accounted : {e d : Exchange} → Work e d → Accounted e → Accounted d
unfolding cook
Work-Accounted {e} (begins r rest q eq) h = subst Accounted (sym eq) (begins-Accounted r rest e q h)
Work-Accounted {e} (ends before after r good q eq) h =
    subst Accounted (sym eq) (ends-Accounted before after r good e q h)
Work-Accounted {e} (takes_succ n rest w q eq) h =
    subst Accounted (sym eq) (takes_succ-Accounted n rest e q h)
Work-Accounted {e} (takes_fail n rest w q eq) h =
    subst Accounted (sym eq) (takes_fail-Accounted n rest e q h)
Work-Accounted {e} (takes_both n m rest rest' w q q' eq) h =
    subst Accounted (sym eq) (takes_both-Accounted n m rest rest' e q q' h)
Work-Accounted {e} (cooks w p eq) h =
    subst Accounted (sym eq) (cook_from-Accounted w e.next e p refl h)
