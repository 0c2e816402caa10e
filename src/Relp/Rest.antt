-- ===== src/Relp/Rest.antt =====
-- What a connection promises its client.
use skewer.Prelude.{
  ℕ, ◌<◌, Bool, true, false, ◌||◌, Option, none, some, List, [], ◌∷◌, ◌++◌, ◌≡◌, refl, sym, ap, ◌∙◌,
  arith, append-nil, All, ◌==◌,
}
use mathlib.Core.Path.{subst}
use skewer.Relp.State.{Fsm, Command, Response, Exchange, Conn, waiting}
use skewer.Relp.Scanner.{noted, scan}
use skewer.Relp.Lost.{Later, so_far, and_step, Later-lost, scan-ended}
use skewer.Relp.Steps.{scans, works, Reachable, starts, then_step}
use skewer.Relp.Queues.{mem, mem-append, txnrs, answered, listed, told}
use skewer.Relp.Scanning.{scan-Kept}
use skewer.Relp.Order.{Reachable-Ordered}
use skewer.Relp.Numbers.{
  Ascends, Numbered, accepted-above, grow-Numbered, note-Numbered, queued-received, Work-received,
  Reachable-Numbered,
}
use skewer.Relp.Truth.{Reachable-Truthful}
use skewer.Relp.Account.{Accounted, start-Accounted, noted-Accounted}
use skewer.Relp.Marks.{Work-Accounted}

below_fresh : (n : ℕ) (xs : List ℕ) → All (λ y. y < n) xs → mem n xs ≡ false
below_fresh n [] h = refl
below_fresh n (x ∷ xs) h = ground (arith, below_fresh n xs h.1, h.0)

above_fresh : (n : ℕ) (xs : List ℕ) → All (λ y. n < y) xs → mem n xs ≡ false
above_fresh n [] h = refl
above_fresh n (x ∷ xs) h = ground (arith, above_fresh n xs h.1, h.0)

abbrev Sound : Option ℕ → Exchange → Type 0
Sound p e = Numbered p e.received × Accounted e

Reachable-Sound : {f : Fsm} {msiz : ℕ} {c : Conn} → Reachable f msiz c → Sound c.previous c.exchange
unfolding noted
Reachable-Sound starts = ((tt, tt), start-Accounted)
Reachable-Sound {f} {msiz} (then_step {c = c} r (scans full l going eq)) =
    subst (λ d. Sound d.previous d.exchange) (sym eq)
      (scan-Kept Sound (λ p t n e acc h. (grow-Numbered p t n e.received acc h.0, h.1))
        (λ p t n e m full' text acc h. (
          subst (Numbered (some n)) (sym (queued-received m full' n text (noted n e)))
              (note-Numbered p t n e.received acc h.0),
          noted-Accounted m full' n text e
              (below_fresh n e.received (accepted-above p t n e.received acc h.0.0)) h.1,
        ))
        msiz full f l c (Reachable-Sound r))
Reachable-Sound (then_step {c = c} r (works w eq)) =
    let h = Reachable-Sound r in
    subst (λ d. Sound d.previous d.exchange) (sym eq)
      (subst (Numbered c.previous) (sym (Work-received w)) h.0, Work-Accounted w h.1)

-- On a connection, under every interleaving of the scanner, the parsers and the writer of the
-- responses, and whatever the writes give: the messages are received by increasing numbers, the
-- responses written so far are for the first of them, in the same order and one for each, and each
-- response says what a parser has said of its message.
pub responses_in_order :
    {f : Fsm} {msiz : ℕ} {c : Conn}
    → Reachable f msiz c
    → Ascends c.exchange.received
      × ((rest : List ℕ) × (answered c.exchange.responses ++ rest ≡ c.exchange.received))
      × All (λ r. told r.txnr r.good c.exchange.reported ≡ true) c.exchange.responses
responses_in_order {c = c} r = (
  (Reachable-Numbered r).1,
  (listed c.exchange.next ++ c.exchange.comm, Reachable-Ordered r),
  (Reachable-Truthful r).of_responses,
)

All_at : (P : ℕ → Type 0) (us vs : List ℕ) (k : ℕ) → All P (us ++ k ∷ vs) → P k
All_at P [] vs k h = h.0
All_at P (u ∷ us) vs k h = All_at P us vs k h.1

-- Of ascending numbers, one is not among those before it.
split_fresh : (xs ys : List ℕ) (n : ℕ) → Ascends (xs ++ n ∷ ys) → mem n xs ≡ false
split_fresh [] ys n h = refl
split_fresh (x ∷ xs) ys n h =
    let smaller : x < n = All_at (λ y. x < y) xs ys n h.0 in ground (arith, split_fresh xs ys n h.1)

-- Nothing is in a queue or with a parser, no message was lost for its size or a full queue, and
-- `handleResponses` waits.
pub record AtRest (e : Exchange) : Type 0 where
  pub no_raws : e.raws ≡ []
  pub no_parsing : e.parsing ≡ []
  pub no_succ : e.succ ≡ []
  pub no_fail : e.fail ≡ []
  pub no_lost : e.lost ≡ []
  pub waits : e.phase ≡ waiting

nothing_pending :
    (e : Exchange) (pending : List ℕ)
    → listed e.next ++ e.comm ≡ pending
    → answered e.responses ++ pending ≡ e.received
    → Ascends e.received
    → Accounted e
    → AtRest e
    → answered e.responses ≡ e.received
nothing_pending e [] q o asc h r = sym (append-nil (answered e.responses)) ∙ o
nothing_pending e (n ∷ rest) q o asc h r =
    let fresh = split_fresh (answered e.responses) rest n (subst Ascends (sym o) asc) in
    let here = ap (mem n) (sym o) ∙ mem-append n (answered e.responses) (n ∷ rest) in
    absurd (
      ground (
        arith,
        fresh,
        here,
        h.account n,
        h.unmarked n,
        h.idle r.waits n rest q,
        ap (λ x. mem n (txnrs x)) r.no_raws,
        ap (λ x. mem n (txnrs x)) r.no_parsing,
        ap (mem n) r.no_succ,
        ap (mem n) r.no_fail,
        ap (mem n) r.no_lost,
      ))

-- When a connection is at rest, no message lost, every message that was received has its response.
pub all_answered-AtRest :
    {f : Fsm} {msiz : ℕ} {c : Conn}
    → Reachable f msiz c
    → AtRest c.exchange
    → answered c.exchange.responses ≡ c.exchange.received
all_answered-AtRest {c = c} r rest =
    nothing_pending c.exchange (listed c.exchange.next ++ c.exchange.comm) refl
      (Reachable-Ordered r) (Reachable-Numbered r).1 (Reachable-Sound r).1 rest

told_either :
    (n k : ℕ) (good : Bool) (reported : List Response)
    → told n good reported ≡ true
    → (told k true reported || told k false reported) ≡ false
    → (n == k) ≡ false
told_either n k true reported t f = ground arith
told_either n k false reported t f = ground arith

untold :
    (k : ℕ) (rs reported : List Response)
    → All (λ r. told r.txnr r.good reported ≡ true) rs
    → (told k true reported || told k false reported) ≡ false
    → mem k (answered rs) ≡ false
untold k [] reported h f = refl
untold k (r ∷ rs) reported h f =
    ground (arith, told_either r.txnr k r.good reported h.0 f, untold k rs reported h.1 f)

prefix_before :
    (xs rest before after : List ℕ) (n : ℕ)
    → xs ++ rest ≡ before ++ n ∷ after
    → mem n xs ≡ false
    → (r : List ℕ) × (xs ++ r ≡ before)
prefix_before [] rest before after n e f = (before, refl)
prefix_before (x ∷ xs) rest [] after n e f = let here : x ≡ n = cc e in absurd (ground arith)
prefix_before (x ∷ xs) rest (b ∷ before) after n e f =
    let here : x ≡ b = cc e in
    let later : xs ++ rest ≡ before ++ n ∷ after = cc e in
    let (r, q) = prefix_before xs rest before after n later (ground arith) in (r, cc (here, q))

Later-Reachable :
    {f : Fsm} {msiz : ℕ} {c d : Conn} → Reachable f msiz c → Later f msiz c d → Reachable f msiz d
Later-Reachable r so_far = r
Later-Reachable r (and_step l s) = then_step (Later-Reachable r l) s

-- When a command of a running scan loses its message, which is too large or which `rawq` does not
-- take, the scan goes on; but whatever the goroutines do from there on, no response is written for
-- that message or for any that was received after it.
pub lost_stalls :
    {f : Fsm} {msiz : ℕ} {c d : Conn} (full : Bool) (l : Command) (n : ℕ) (before after : List ℕ)
    → Reachable f msiz c
    → c.ended ≡ none
    → mem n c.exchange.lost ≡ false
    → mem n (scan f msiz full l c).exchange.lost ≡ true
    → Later f msiz (scan f msiz full l c) d
    → d.exchange.received ≡ before ++ n ∷ after
    → ((scan f msiz full l c).ended ≡ none)
      × ((rest : List ℕ) × (answered d.exchange.responses ++ rest ≡ before))
lost_stalls {f} {msiz} {c} {d} full l n before after r going kept lost later e =
    let r' : Reachable f msiz d = Later-Reachable (then_step r (scans full l going refl)) later in
    let apart = (Reachable-Sound r').1.lost_apart n (Later-lost n later lost) in
    (
      scan-ended f n msiz full l c kept lost ∙ going,
      prefix_before (answered d.exchange.responses) (listed d.exchange.next ++ d.exchange.comm)
          before after n (Reachable-Ordered r' ∙ e)
          (untold n d.exchange.responses d.exchange.reported (Reachable-Truthful r').of_responses
            (ground arith)),
    )
