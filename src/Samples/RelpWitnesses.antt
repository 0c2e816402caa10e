-- ===== src/Samples/RelpWitnesses.antt =====
-- The theorems on RELP connections, applied to short runs: a message that is parsed and answered, and
-- one that is too large.
use skewer.Prelude.{ℕ, true, false, none, some, List, [], ◌∷◌, ◌++◌, ◌≡◌, refl, codes, Bytes, All}
use skewer.Prelude.Int.{pos}
use skewer.Relp.State.{Fsm, documented, Command, Conn, Exchange, Raw, cooking}
use skewer.Relp.Scanner.{scan}
use skewer.Relp.Responder.{forwarded, mark_success, wrote, cook}
use skewer.Relp.Steps.{
  begins, ends, takes_succ, cooks, scans, works, start, Reachable, starts, then_step,
}
use skewer.Relp.Queues.{mem, answered, told}
use skewer.Relp.Lost.{Later, so_far, and_step}
use skewer.Relp.Numbers.{Ascends}
use skewer.Relp.Rest.{AtRest, responses_in_order, all_answered-AtRest, lost_stalls}

abbrev sample_fsm : Fsm
sample_fsm = record { fire = documented; fire_lem = λ ds s n. refl }

abbrev open_session : Command
open_session = record { txnr = some (pos 1); command = codes "open"; text = codes "v" }

abbrev log_text : ℕ → Bytes → Command
log_text n text = record { txnr = some (pos n); command = codes "syslog"; text = text }

abbrev scanned : Conn
scanned =
    scan sample_fsm 3 false (log_text 2 (codes "hi")) (scan sample_fsm 3 false open_session start)

scanned-Reachable : Reachable sample_fsm 3 scanned
unfolding scan
scanned-Reachable =
    then_step (then_step starts (scans false open_session refl refl))
      (scans false (log_text 2 (codes "hi")) refl refl)

abbrev hi : Raw
hi = record { txnr = 2; text = codes "hi" }

abbrev in_hand : Exchange
in_hand = record scanned.exchange { raws = []; parsing = hi ∷ [] }

abbrev parsed : Exchange
parsed = forwarded 2 true (record in_hand { parsing = [] })

abbrev marked : Exchange
marked = mark_success 2 (record parsed { phase = cooking; succ = [] })

abbrev done : Exchange
done = cook wrote (cook wrote marked)

abbrev at_end : Conn
at_end = record scanned { exchange = done }

at_end-Reachable : Reachable sample_fsm 3 at_end
unfolding scan forwarded mark_success cook
at_end-Reachable =
    then_step
      (then_step
        (then_step
          (then_step
            (then_step scanned-Reachable (works {e = in_hand} (begins hi [] refl refl) refl))
            (works {e = parsed} (ends [] [] hi true refl refl) refl))
          (works {e = marked} (takes_succ 2 [] refl refl refl) refl))
        (works {e = cook wrote marked} (cooks wrote refl refl) refl))
      (works {e = done} (cooks wrote refl refl) refl)

responses_in_order_example :
    Ascends at_end.exchange.received
    × ((rest : List ℕ) × (answered at_end.exchange.responses ++ rest ≡ at_end.exchange.received))
    × All (λ r. told r.txnr r.good at_end.exchange.reported ≡ true) at_end.exchange.responses
responses_in_order_example = responses_in_order at_end-Reachable

at_end-AtRest : AtRest at_end.exchange
unfolding scan forwarded mark_success cook
at_end-AtRest = record {
  no_raws = refl;
  no_parsing = refl;
  no_succ = refl;
  no_fail = refl;
  no_lost = refl;
  waits = refl;
}

all_answered-AtRest_example : answered at_end.exchange.responses ≡ at_end.exchange.received
all_answered-AtRest_example = all_answered-AtRest at_end-Reachable at_end-AtRest

answered_at_end : answered at_end.exchange.responses ≡ 2 ∷ []
unfolding scan forwarded mark_success cook
answered_at_end = refl

-- Four bytes, where three are allowed, and a message after it.
abbrev too_large : Conn
too_large = scan sample_fsm 3 false (log_text 4 (codes "long")) scanned

abbrev after_it : Conn
after_it = scan sample_fsm 3 false (log_text 5 (codes "ho")) too_large

scanned-kept : mem 4 scanned.exchange.lost ≡ false
unfolding scan
scanned-kept = refl

scanned-going : scanned.ended ≡ none
unfolding scan
scanned-going = refl

too_large-lost : mem 4 too_large.exchange.lost ≡ true
unfolding scan
too_large-lost = refl

after_it-Later : Later sample_fsm 3 too_large after_it
unfolding scan
after_it-Later = and_step so_far (scans false (log_text 5 (codes "ho")) refl refl)

after_it-received : after_it.exchange.received ≡ (2 ∷ []) ++ 4 ∷ 5 ∷ []
unfolding scan
after_it-received = refl

lost_stalls_example :
    (too_large.ended ≡ none)
    × ((rest : List ℕ) × (answered after_it.exchange.responses ++ rest ≡ 2 ∷ []))
lost_stalls_example =
    lost_stalls false (log_text 4 (codes "long")) 4 (2 ∷ []) (5 ∷ []) scanned-Reachable
      scanned-going scanned-kept too_large-lost after_it-Later after_it-received
