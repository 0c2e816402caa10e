-- ===== src/Relp/Scanner.antt =====
-- `scan` and the callbacks of `newMachine`.
use skewer.Prelude.{
  ℕ, Bool, true, ◌&&◌, ◌||◌, Option, none, some, [], ◌∷◌, ◌++◌, Bytes, length, equal, codes, ltb,
  if◌then◌else◌,
}
use skewer.Prelude.Int.{ℤ, pos, negsuc}
use skewer.Relp.State.{
  RelpState, closed, opened, same_state, Fired, unknown_event, invalid_event, to, Fsm, events,
  Command, open_ok, server_close, Ended, badly_formed, not_increased, unknown_command,
  invalid_command, client_closed, Exchange, Conn,
}

-- `txnr <= previous` fails, and the number is not negative.
unfoldable pub accepted : Option ℕ → ℤ → Option ℕ
accepted p (negsuc n) = none
accepted none (pos n) = some n
accepted (some p) (pos n) = if ltb p n then some n else none

unfoldable pub end_scan : Ended → Conn → Conn
end_scan why c = record c { ended = some why }

-- The rest of `after_syslog`, once the number is in the ring `comm`. `msiz` is the largest size, and
-- 0 is none; `full` says that `rawq.Put` fails. Both errors go to `e.Err`.
unfoldable pub queued : (msiz : ℕ) (full : Bool) (n : ℕ) (text : Bytes) → Exchange → Exchange
queued msiz full n [] e = record e {
  succ = e.succ ++ n ∷ [];
  reported = e.reported ++ record { txnr = n; good = true } ∷ [];
}
queued msiz full n (x ∷ text) e =
    if (ltb 0 msiz && ltb msiz (length (x ∷ text))) || full
    then record e { lost = e.lost ++ n ∷ [] }
    else record e { raws = e.raws ++ record { txnr = n; text = x ∷ text } ∷ [] }

-- `fwder.Received`
unfoldable pub noted : ℕ → Exchange → Exchange
noted n e = record e { comm = e.comm ++ n ∷ []; received = e.received ++ n ∷ [] }

-- The callbacks `after_<event>`, of which there is one.
unfoldable pub after_event : (msiz : ℕ) (full : Bool) (n : ℕ) (command text : Bytes) → Conn → Conn
unfolding queued noted
after_event msiz full n command text c =
    if equal command (codes "syslog")
    then record c { exchange = queued msiz full n text (noted n c.exchange) }
    else c

-- The callbacks `enter_<state>`; that of `closed` sets `e.Err` to `io.EOF`, with which `scan` returns.
unfoldable pub entered : RelpState → ℕ → Bytes → Conn → Conn
unfolding end_scan
entered closed n text c =
    end_scan client_closed
      (record c { machine = closed; replies = c.replies ++ server_close n ∷ [] })
entered opened n text c = record c { machine = opened; replies = c.replies ++ open_ok n text ∷ [] }

-- `machine.Event` and what `scan` makes of its error; it takes a `NoTransitionError` for none, with
-- the error inside.
unfoldable pub handled :
    (msiz : ℕ) (full : Bool) (n : ℕ) (command text : Bytes) → Fired → Conn → Conn
unfolding end_scan after_event entered
handled msiz full n command text unknown_event c = end_scan unknown_command c
handled msiz full n command text invalid_event c = end_scan invalid_command c
handled msiz full n command text (to s) c =
    if same_state c.machine s
    then after_event msiz full n command text c
    else after_event msiz full n command text (entered s n text c)

unfoldable pub numbered :
    Fsm → (msiz : ℕ) (full : Bool) (command text : Bytes) → Option ℕ → Conn → Conn
unfolding end_scan handled
numbered f msiz full command text none c = end_scan not_increased c
numbered f msiz full command text (some n) c =
    handled msiz full n command text (f.fire events c.machine command)
      (record c { previous = some n })

unfoldable pub checked : Fsm → (msiz : ℕ) (full : Bool) → Command → Option ℤ → Conn → Conn
unfolding end_scan numbered accepted
checked f msiz full l none c = end_scan badly_formed c
checked f msiz full l (some t) c = numbered f msiz full l.command l.text (accepted c.previous t) c

-- One round of the loop of `scan`.
unfoldable pub scan : Fsm → (msiz : ℕ) (full : Bool) → Command → Conn → Conn
unfolding checked
scan f msiz full l c = checked f msiz full l l.txnr c
