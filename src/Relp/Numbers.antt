-- ===== src/Relp/Numbers.antt =====
-- The numbers of the messages that a connection receives increase.
use skewer.Prelude.{
  ap, ℕ, ◌<◌, ◌≤◌, Bool, true, false, Option, none, some, List, [], ◌∷◌, ◌++◌, ◌≡◌, refl, sym,
  arith, Bytes, All,
}
use skewer.Prelude.Int.{ℤ, pos, negsuc}
use mathlib.Core.Path.{subst}
use skewer.Relp.State.{Fsm, Exchange, Conn}
use skewer.Relp.Scanner.{accepted, queued, noted}
use skewer.Relp.Responder.{
  forwarded, mark_success, mark_failure, Write, wrote, timed_out, broken, answer, cook_next, polled,
  cook_from, cook,
}
use skewer.Relp.Steps.{
  Work, begins, ends, takes_succ, takes_fail, takes_both, cooks, scans, works, Reachable, starts,
  then_step,
}
use skewer.Relp.Scanning.{scan-Kept}

abbrev pub Ascends : List ℕ → Type 0
Ascends [] = Unit
Ascends (x ∷ xs) = All (λ y. x < y) xs × Ascends xs

-- No number is larger than the previous one.
abbrev pub Below : Option ℕ → List ℕ → Type 0
Below none [] = Unit
Below none (x ∷ xs) = ⊥
Below (some m) xs = All (λ y. y ≤ m) xs

abbrev pub Numbered : Option ℕ → List ℕ → Type 0
Numbered p xs = Below p xs × Ascends xs

All-snoc : (P : ℕ → Type 0) (xs : List ℕ) (n : ℕ) → All P xs → P n → All P (xs ++ n ∷ [])
All-snoc P [] n h k = (k, tt)
All-snoc P (x ∷ xs) n h k = (h.0, All-snoc P xs n h.1 k)

All-mono : (P Q : ℕ → Type 0) (xs : List ℕ) → ((y : ℕ) → P y → Q y) → All P xs → All Q xs
All-mono P Q [] f h = tt
All-mono P Q (x ∷ xs) f h = (f x h.0, All-mono P Q xs f h.1)

Ascends-snoc : (xs : List ℕ) (n : ℕ) → Ascends xs → All (λ y. y < n) xs → Ascends (xs ++ n ∷ [])
Ascends-snoc [] n h k = (tt, tt)
Ascends-snoc (x ∷ xs) n h k = (All-snoc (λ y. x < y) xs n h.0 k.0, Ascends-snoc xs n h.1 k.1)

-- An accepted number is larger than all before.
pub accepted-above :
    (p : Option ℕ) (t : ℤ) (n : ℕ) (xs : List ℕ)
    → accepted p t ≡ some n
    → Below p xs
    → All (λ y. y < n) xs
unfolding accepted
accepted-above p (negsuc t) n xs acc h = absurd (cc)
accepted-above none (pos t) n [] acc h = tt
accepted-above none (pos t) n (x ∷ xs) acc h = absurd h
accepted-above (some m) (pos t) n xs acc h =
    let larger : m < n = ground arith in
    All-mono (λ y. y ≤ m) (λ y. y < n) xs (λ y l. omega arith) h

pub grow-Numbered :
    (p : Option ℕ) (t : ℤ) (n : ℕ) (xs : List ℕ)
    → accepted p t ≡ some n
    → Numbered p xs
    → Numbered (some n) xs
grow-Numbered p t n xs acc (b, a) =
    (All-mono (λ y. y < n) (λ y. y ≤ n) xs (λ y l. omega arith) (accepted-above p t n xs acc b), a)

pub note-Numbered :
    (p : Option ℕ) (t : ℤ) (n : ℕ) (xs : List ℕ)
    → accepted p t ≡ some n
    → Numbered p xs
    → Numbered (some n) (xs ++ n ∷ [])
note-Numbered p t n xs acc (b, a) = (
  All-snoc (λ y. y ≤ n) xs n (grow-Numbered p t n xs acc (b, a)).0 (omega arith),
  Ascends-snoc xs n a (accepted-above p t n xs acc b),
)

pub queued-received :
    (msiz : ℕ) (full : Bool) (n : ℕ) (text : Bytes) (e : Exchange)
    → (queued msiz full n text e).received ≡ e.received
unfolding queued
queued-received msiz full n [] e = refl
queued-received msiz full n (x ∷ text) e = ground arith

-- What the scanner alone writes.
abbrev heard : Exchange → List ℕ × List ℕ
heard e = (e.received, e.lost)

forwarded-heard : (n : ℕ) (g : Bool) (e : Exchange) → heard (forwarded n g e) ≡ heard e
unfolding forwarded
forwarded-heard n true e = refl
forwarded-heard n false e = refl

mark_success-heard : (n : ℕ) (e : Exchange) → heard (mark_success n e) ≡ heard e
unfolding mark_success
mark_success-heard n e = ground arith

mark_failure-heard : (n : ℕ) (e : Exchange) → heard (mark_failure n e) ≡ heard e
unfolding mark_failure
mark_failure-heard n e = ground arith

answer-heard : (w : Write) (g : Bool) (n : ℕ) (e : Exchange) → heard (answer w g n e) ≡ heard e
unfolding answer
answer-heard wrote true n e = refl
answer-heard wrote false n e = refl
answer-heard timed_out g n e = refl
answer-heard broken g n e = refl

cook_next-heard : (w : Write) (n : ℕ) (e : Exchange) → heard (cook_next w n e) ≡ heard e
unfolding cook_next
cook_next-heard w n e = ground (arith, answer-heard w true n e, answer-heard w false n e)

cook-heard : (w : Write) (e : Exchange) → heard (cook w e) ≡ heard e
unfolding cook
cook-heard w e = cook_from_heard w e.next e
  where
    polled_heard : (v : Write) (comm : List ℕ) (d : Exchange) → heard (polled v comm d) ≡ heard d
    polled_heard v [] d = refl
    polled_heard v (n ∷ comm) d = cook_next-heard v n (record d { next = some n; comm = comm })

    cook_from_heard : (v : Write) (o : Option ℕ) (d : Exchange) → heard (cook_from v o d) ≡ heard d
    cook_from_heard v (some n) d = cook_next-heard v n d
    cook_from_heard v none d = polled_heard v d.comm d

Work-heard : {e d : Exchange} → Work e d → heard d ≡ heard e
Work-heard (begins r rest q eq) = rw eq refl
Work-heard {e} (ends before after r g q eq) = rw eq (forwarded-heard r.txnr g _)
Work-heard (takes_succ n rest w q eq) = rw eq (mark_success-heard n _)
Work-heard (takes_fail n rest w q eq) = rw eq (mark_failure-heard n _)
Work-heard (takes_both n m rest rest' w q q' eq) =
    rw (eq, mark_failure-heard m) (mark_success-heard n _)
Work-heard {e} (cooks w q eq) = rw eq (cook-heard w e)

pub Work-received : {e d : Exchange} → Work e d → d.received ≡ e.received
Work-received w = ap (λ (p : List ℕ × List ℕ). p.0) (Work-heard w)

pub Work-lost : {e d : Exchange} → Work e d → d.lost ≡ e.lost
Work-lost w = ap (λ (p : List ℕ × List ℕ). p.1) (Work-heard w)

pub Reachable-Numbered :
    {f : Fsm} {msiz : ℕ} {c : Conn} → Reachable f msiz c → Numbered c.previous c.exchange.received
unfolding noted
Reachable-Numbered starts = (tt, tt)
Reachable-Numbered {f} {msiz} (then_step {c = c} r (scans full l going eq)) =
    subst (λ d. Numbered d.previous d.exchange.received) (sym eq)
      (scan-Kept (λ p e. Numbered p e.received)
        (λ p t n e acc h. grow-Numbered p t n e.received acc h)
        (λ p t n e m full' text acc h.
          subst (Numbered (some n)) (sym (queued-received m full' n text (noted n e)))
            (note-Numbered p t n e.received acc h))
        msiz full f l c (Reachable-Numbered r))
Reachable-Numbered (then_step {c = c} r (works w eq)) =
    subst (λ d. Numbered d.previous d.exchange.received) (sym eq)
      (subst (Numbered c.previous) (sym (Work-received w)) (Reachable-Numbered r))
