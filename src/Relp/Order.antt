-- ===== src/Relp/Order.antt =====
-- The responses of a connection are in the order of the messages.
use skewer.Prelude.{
  ℕ, Bool, true, false, Option, none, some, List, [], ◌∷◌, ◌++◌, ◌≡◌, refl, sym, arith, Bytes,
  append_assoc,
}
use mathlib.Core.Path.{subst}
use skewer.Relp.State.{Fsm, Response, Exchange, Conn}
use skewer.Relp.Scanner.{queued, noted}
use skewer.Relp.Responder.{
  forwarded, mark_success, mark_failure, Write, wrote, timed_out, broken, answer, cook_next, polled,
  cook_from, cook,
}
use skewer.Relp.Steps.{
  Work, begins, ends, takes_succ, takes_fail, takes_both, cooks, scans, works, Reachable, starts,
  then_step,
}
use skewer.Relp.Queues.{answered, listed, answered-append}
use skewer.Relp.Scanning.{scan-Kept}

-- What is answered and what is to be answered next are what was received, in that order.
abbrev pub Ordered : Exchange → Type 0
Ordered e = answered e.responses ++ (listed e.next ++ e.comm) ≡ e.received

noted-Ordered : (n : ℕ) (e : Exchange) → Ordered e → Ordered (noted n e)
unfolding noted
noted-Ordered n e h =
    rw
      (
        ← append_assoc (listed e.next) e.comm (n ∷ []),
        ← append_assoc (answered e.responses) (listed e.next ++ e.comm) (n ∷ []),
        h,
      )
      refl

queued-Ordered :
    (msiz : ℕ) (full : Bool) (n : ℕ) (text : Bytes) (e : Exchange)
    → Ordered e
    → Ordered (queued msiz full n text e)
unfolding queued
queued-Ordered msiz full n [] e h = h
queued-Ordered msiz full n (x ∷ text) e h = ground arith

forwarded-Ordered : (n : ℕ) (good : Bool) (e : Exchange) → Ordered e → Ordered (forwarded n good e)
unfolding forwarded
forwarded-Ordered n true e h = h
forwarded-Ordered n false e h = h

mark_success-Ordered : (n : ℕ) (e : Exchange) → Ordered e → Ordered (mark_success n e)
unfolding mark_success
mark_success-Ordered n e h = ground arith

mark_failure-Ordered : (n : ℕ) (e : Exchange) → Ordered e → Ordered (mark_failure n e)
unfolding mark_failure
mark_failure-Ordered n e h = ground arith

answered-next :
    (rs : List Response) (r : Response) (comm received : List ℕ)
    → answered rs ++ r.txnr ∷ comm ≡ received
    → answered (rs ++ r ∷ []) ++ comm ≡ received
answered-next rs r comm received h =
    rw (answered-append rs (r ∷ []), append_assoc (answered rs) (r.txnr ∷ []) comm) h

next-Ordered :
    (e : Exchange) (n : ℕ)
    → e.next ≡ some n
    → Ordered e
    → answered e.responses ++ n ∷ e.comm ≡ e.received
next-Ordered e n next h =
    subst (λ o. answered e.responses ++ (listed o ++ e.comm) ≡ e.received) next h

answer-Ordered :
    (w : Write) (good : Bool) (n : ℕ) (e : Exchange)
    → e.next ≡ some n
    → Ordered e
    → Ordered (answer w good n e)
unfolding answer
answer-Ordered wrote true n e next h =
    answered-next e.responses (record { txnr = n; good = true }) e.comm e.received
      (next-Ordered e n next h)
answer-Ordered wrote false n e next h =
    answered-next e.responses (record { txnr = n; good = false }) e.comm e.received
      (next-Ordered e n next h)
answer-Ordered timed_out good n e next h = h
answer-Ordered broken good n e next h = h

cook_next-Ordered :
    (w : Write) (n : ℕ) (e : Exchange) → e.next ≡ some n → Ordered e → Ordered (cook_next w n e)
unfolding cook_next
cook_next-Ordered w n e next h =
    ground (arith, answer-Ordered w true n e next h, answer-Ordered w false n e next h)

polled-Ordered :
    (w : Write) (comm : List ℕ) (e : Exchange)
    → e.next ≡ none
    → e.comm ≡ comm
    → Ordered e
    → Ordered (polled w comm e)
unfolding polled
polled-Ordered w [] e next q h = h
polled-Ordered w (n ∷ comm) e next q h =
    cook_next-Ordered w n (record e { next = some n; comm = comm }) refl
      (subst (λ k. answered e.responses ++ k ≡ e.received) q
        (subst (λ o. answered e.responses ++ (listed o ++ e.comm) ≡ e.received) next h))

cook_from-Ordered :
    (w : Write) (o : Option ℕ) (e : Exchange) → e.next ≡ o → Ordered e → Ordered (cook_from w o e)
unfolding cook_from
cook_from-Ordered w (some n) e next h = cook_next-Ordered w n e next h
cook_from-Ordered w none e next h = polled-Ordered w e.comm e next refl h

cook-Ordered : (w : Write) (e : Exchange) → Ordered e → Ordered (cook w e)
unfolding cook
cook-Ordered w e h = cook_from-Ordered w e.next e refl h

Work-Ordered : {e d : Exchange} → Work e d → Ordered e → Ordered d
Work-Ordered (begins r rest q eq) h = subst Ordered (sym eq) h
Work-Ordered (ends before after r good q eq) h =
    subst Ordered (sym eq) (forwarded-Ordered r.txnr good _ h)
Work-Ordered (takes_succ n rest w q eq) h = subst Ordered (sym eq) (mark_success-Ordered n _ h)
Work-Ordered (takes_fail n rest w q eq) h = subst Ordered (sym eq) (mark_failure-Ordered n _ h)
Work-Ordered (takes_both n m rest rest' w q q' eq) h =
    subst Ordered (sym eq) (mark_failure-Ordered m _ (mark_success-Ordered n _ h))
Work-Ordered {e} (cooks w q eq) h = subst Ordered (sym eq) (cook-Ordered w e h)

pub Reachable-Ordered : {f : Fsm} {msiz : ℕ} {c : Conn} → Reachable f msiz c → Ordered c.exchange
Reachable-Ordered starts = refl
Reachable-Ordered {f} {msiz} (then_step {c = c} r (scans full l going eq)) =
    subst (λ d. Ordered d.exchange) (sym eq)
      (scan-Kept (λ p e. Ordered e) (λ p t n e acc h. h)
        (λ p t n e m full' text acc h.
          queued-Ordered m full' n text (noted n e) (noted-Ordered n e h))
        msiz full f l c (Reachable-Ordered r))
Reachable-Ordered (then_step r (works w eq)) =
    subst (λ d. Ordered d.exchange) (sym eq) (Work-Ordered w (Reachable-Ordered r))
