-- ===== src/Relp/Account.antt =====
-- Where each message that was received is.
use skewer.Prelude.{
  ℕ, Bool, true, false, ◌||◌, ◌&&◌, List, [], ◌∷◌, ◌++◌, ◌≡◌, refl, ap, ◌∙◌, ◌⊎◌, append_assoc,
  arith, Bytes, length, inl, inr, Bool-cases, ◌==◌, ltb,
}
use skewer.Relp.State.{Raw, Exchange, waiting}
use skewer.Relp.Scanner.{queued, noted}
use skewer.Relp.Responder.{forwarded, has, holds}
use skewer.Relp.Steps.{start}
use skewer.Relp.Queues.{mem, mem-append, txnrs, txnrs-append, answered, listed, told, told-append}

-- A message is in a queue, with a parser, marked, or lost.
abbrev pub somewhere : ℕ → Exchange → Bool
somewhere n e =
    mem n (txnrs e.raws)
    || mem n (txnrs e.parsing)
    || mem n e.succ
    || mem n e.fail
    || has (e.successes n)
    || has (e.failures n)
    || mem n e.lost

pub record Accounted (e : Exchange) : Type 0 where
  pub account : (n : ℕ) → mem n e.received ≡ somewhere n e
  -- A mark that is no longer set was answered.
  pub unmarked :
      (n : ℕ)
      → (has (e.successes n) || has (e.failures n)) ≡ true
      → (holds (e.successes n) || holds (e.failures n) || mem n (answered e.responses)) ≡ true
  -- `handleResponses` waits only where it cannot answer the next message.
  pub idle :
      e.phase ≡ waiting
      → (n : ℕ) (rest : List ℕ) → listed e.next ++ e.comm ≡ n ∷ rest
      → (holds (e.successes n) || holds (e.failures n)) ≡ false
  pub told_received : (n : ℕ) (b : Bool) → told n b e.reported ≡ true → mem n e.received ≡ true
  pub lost_apart :
      (n : ℕ)
      → mem n e.lost ≡ true
      → (mem n (txnrs e.raws)
          || mem n (txnrs e.parsing)
          || told n true e.reported
          || told n false e.reported)
        ≡ false

pub start-Accounted : Accounted start.exchange
start-Accounted = record {
  account = λ n. refl;
  unmarked = λ n h. absurd (cc);
  idle = λ p n rest h. refl;
  told_received = λ n b h. absurd (cc);
  lost_apart = λ n h. refl;
}

-- The head of the numbers to come is the new one, or the one there was.
head_snoc :
    (xs : List ℕ) (n k : ℕ) (rest : List ℕ)
    → xs ++ n ∷ [] ≡ k ∷ rest
    → (k ≡ n) ⊎ ((r : List ℕ) × (xs ≡ k ∷ r))
head_snoc [] n k rest e = inl (ground arith)
head_snoc (x ∷ xs) n k rest e = inr (xs, ground arith)

-- The number that is new has no mark.
idle_noted :
    (n : ℕ) (e : Exchange)
    → mem n e.received ≡ false
    → Accounted e
    → e.phase ≡ waiting
    → (k : ℕ) (rest : List ℕ) → listed e.next ++ (e.comm ++ n ∷ []) ≡ k ∷ rest
    → (holds (e.successes k) || holds (e.failures k)) ≡ false
idle_noted n e fresh h p k rest q =
    elim (head_snoc (listed e.next ++ e.comm) n k rest
      (append_assoc (listed e.next) e.comm (n ∷ []) ∙ q)) [
        | inl new ↦ rw new (ground (arith, h.account n))
        | inr old ↦ h.idle p k old.0 old.1
      ]

lost-Accounted :
    (n : ℕ) (e : Exchange)
    → mem n e.received ≡ false
    → Accounted e
    → Accounted (record e {
      comm = e.comm ++ n ∷ [];
      received = e.received ++ n ∷ [];
      lost = e.lost ++ n ∷ [];
    })
lost-Accounted n e fresh h = record {
  account = λ k.
      ground (arith, h.account k, mem-append k e.received (n ∷ []), mem-append k e.lost (n ∷ []));
  unmarked = h.unmarked;
  idle = idle_noted n e fresh h;
  told_received = λ k b t. ground (arith, h.told_received k b, mem-append k e.received (n ∷ []));
  lost_apart = λ k l. ground (
    arith,
    h.lost_apart k,
    h.account k,
    h.told_received k true,
    h.told_received k false,
    mem-append k e.lost (n ∷ []),
  );
}

raw-Accounted :
    (n : ℕ) (text : Bytes) (e : Exchange)
    → mem n e.received ≡ false
    → Accounted e
    → Accounted (record e {
      comm = e.comm ++ n ∷ [];
      received = e.received ++ n ∷ [];
      raws = e.raws ++ record { txnr = n; text = text } ∷ [];
    })
raw-Accounted n text e fresh h =
    let r : Raw = record { txnr = n; text = text } in
    let moved = λ (k : ℕ). mem-append k (txnrs e.raws) (n ∷ []) in
    record {
      account = λ k.
          rw (txnrs-append e.raws (r ∷ []))
            (ground (arith, h.account k, moved k, mem-append k e.received (n ∷ [])));
      unmarked = h.unmarked;
      idle = idle_noted n e fresh h;
      told_received =
          λ k b t. ground (arith, h.told_received k b, mem-append k e.received (n ∷ []));
      lost_apart = λ k l.
          rw (txnrs-append e.raws (r ∷ [])) (ground (arith, h.lost_apart k, h.account k, moved k));
    }

pub noted-Accounted :
    (msiz : ℕ) (full : Bool) (n : ℕ) (text : Bytes) (e : Exchange)
    → mem n e.received ≡ false
    → Accounted e
    → Accounted (queued msiz full n text (noted n e))
unfolding queued noted
noted-Accounted msiz full n [] e fresh h = record {
  account = λ k.
      ground (arith, h.account k, mem-append k e.received (n ∷ []), mem-append k e.succ (n ∷ []));
  unmarked = h.unmarked;
  idle = idle_noted n e fresh h;
  told_received = λ k b t. ground (
    arith,
    h.told_received k b,
    mem-append k e.received (n ∷ []),
    told-append k b e.reported (record { txnr = n; good = true } ∷ []),
  );
  lost_apart = λ k l. ground (
    arith,
    h.lost_apart k,
    h.account k,
    told-append k true e.reported (record { txnr = n; good = true } ∷ []),
    told-append k false e.reported (record { txnr = n; good = true } ∷ []),
  );
}
noted-Accounted msiz full n (x ∷ text) e fresh h =
    elim (Bool-cases ((ltb 0 msiz && ltb msiz (length (x ∷ text))) || full)) [
      | inl refused ↦ rw refused (lost-Accounted n e fresh h)
      | inr taken ↦ rw taken (raw-Accounted n (x ∷ text) e fresh h)
    ]

pub begins-Accounted :
    (r : Raw) (rest : List Raw) (e : Exchange)
    → e.raws ≡ r ∷ rest
    → Accounted e
    → Accounted (record e { raws = rest; parsing = e.parsing ++ r ∷ [] })
begins-Accounted r rest e q h =
    let raws = λ (k : ℕ). ap (λ x. mem k (txnrs x)) q in
    let moved = λ (k : ℕ). mem-append k (txnrs e.parsing) (r.txnr ∷ []) in
    record {
      account =
          λ k. rw (txnrs-append e.parsing (r ∷ [])) (ground (arith, h.account k, raws k, moved k));
      unmarked = h.unmarked;
      idle = h.idle;
      told_received = h.told_received;
      lost_apart = λ k l.
          rw (txnrs-append e.parsing (r ∷ [])) (ground (arith, h.lost_apart k, raws k, moved k));
    }

-- The numbers with the parsers, one taken out.
txnrs_without :
    (k : ℕ) (before after : List Raw) (r : Raw)
    → mem k (txnrs (before ++ r ∷ after)) ≡ (r.txnr == k || mem k (txnrs (before ++ after)))
txnrs_without k [] after r = refl
txnrs_without k (x ∷ before) after r = ground (arith, txnrs_without k before after r)

pub ends-Accounted :
    (before after : List Raw) (r : Raw) (good : Bool) (e : Exchange)
    → e.parsing ≡ before ++ r ∷ after
    → Accounted e
    → Accounted (forwarded r.txnr good (record e { parsing = before ++ after }))
unfolding forwarded
ends-Accounted before after r true e q h =
    let left = λ (k : ℕ). ap (λ x. mem k (txnrs x)) q ∙ txnrs_without k before after r in
    record {
      account = λ k. ground (arith, h.account k, left k, mem-append k e.succ (r.txnr ∷ []));
      unmarked = h.unmarked;
      idle = h.idle;
      told_received = λ k b t. ground (
        arith,
        h.told_received k b,
        h.account k,
        left k,
        told-append k b e.reported (record { txnr = r.txnr; good = true } ∷ []),
      );
      lost_apart = λ k l. ground (
        arith,
        h.lost_apart k,
        left k,
        told-append k true e.reported (record { txnr = r.txnr; good = true } ∷ []),
        told-append k false e.reported (record { txnr = r.txnr; good = true } ∷ []),
      );
    }
ends-Accounted before after r false e q h =
    let left = λ (k : ℕ). ap (λ x. mem k (txnrs x)) q ∙ txnrs_without k before after r in
    record {
      account = λ k. ground (arith, h.account k, left k, mem-append k e.fail (r.txnr ∷ []));
      unmarked = h.unmarked;
      idle = h.idle;
      told_received = λ k b t. ground (
        arith,
        h.told_received k b,
        h.account k,
        left k,
        told-append k b e.reported (record { txnr = r.txnr; good = false } ∷ []),
      );
      lost_apart = λ k l. ground (
        arith,
        h.lost_apart k,
        left k,
        told-append k true e.reported (record { txnr = r.txnr; good = false } ∷ []),
        told-append k false e.reported (record { txnr = r.txnr; good = false } ∷ []),
      );
    }
