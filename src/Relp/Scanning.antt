-- ===== src/Relp/Scanning.antt =====
-- What a round of `scan` does to the exchange: nothing, or a message is noted and queued.
use skewer.Prelude.{
  ℕ, Bool, Option, none, some, ◌≡◌, refl, inl, inr, Bytes, Bool-cases, equal, codes,
}
use skewer.Prelude.Int.{ℤ}
use skewer.Relp.State.{
  RelpState, closed, opened, same_state, Fired, unknown_event, invalid_event, to, Fsm, events,
  Command, Exchange, Conn,
}
use skewer.Relp.Scanner.{
  accepted, queued, noted, after_event, entered, handled, numbered, checked, scan,
}

module _ (P : Option ℕ → Exchange → Type 0)
    (grow : (p : Option ℕ) (t : ℤ) (n : ℕ) (e : Exchange)
      → accepted p t ≡ some n
      → P p e
      → P (some n) e)
    (note : (p : Option ℕ) (t : ℤ) (n : ℕ) (e : Exchange) (msiz : ℕ) (full : Bool) (text : Bytes)
      → accepted p t ≡ some n
      → P p e
      → P (some n) (queued msiz full n text (noted n e)))
    (msiz : ℕ) (full : Bool) where
  abbrev Kept : Conn → Type 0
  Kept c = P c.previous c.exchange

  after_event-Kept :
      (p : Option ℕ) (t : ℤ) (n : ℕ) (command text : Bytes) (c : Conn)
      → accepted p t ≡ some n
      → c.previous ≡ some n
      → P p c.exchange
      → Kept (after_event msiz full n command text c)
  unfolding after_event
  after_event-Kept p t n command text c acc prev h =
      elim (Bool-cases (equal command (codes "syslog"))) [
        | inl syslog ↦ rw (syslog, prev) (note p t n c.exchange msiz full text acc h)
        | inr other ↦ rw (other, prev) (grow p t n c.exchange acc h)
      ]

  entered-Kept :
      (s : RelpState) (n : ℕ) (command text : Bytes) (p : Option ℕ) (t : ℤ) (c : Conn)
      → accepted p t ≡ some n
      → c.previous ≡ some n
      → P p c.exchange
      → Kept (after_event msiz full n command text (entered s n text c))
  unfolding entered
  entered-Kept closed n command text p t c acc prev h =
      after_event-Kept p t n command text (entered closed n text c) acc prev h
  entered-Kept opened n command text p t c acc prev h =
      after_event-Kept p t n command text (entered opened n text c) acc prev h

  handled-Kept :
      (fired : Fired) (n : ℕ) (command text : Bytes) (p : Option ℕ) (t : ℤ) (c : Conn)
      → accepted p t ≡ some n
      → c.previous ≡ some n
      → P p c.exchange
      → Kept (handled msiz full n command text fired c)
  unfolding handled
  handled-Kept unknown_event n command text p t c acc prev h = rw prev (grow p t n c.exchange acc h)
  handled-Kept invalid_event n command text p t c acc prev h = rw prev (grow p t n c.exchange acc h)
  handled-Kept (to s) n command text p t c acc prev h = elim (Bool-cases (same_state c.machine s)) [
    | inl stays ↦ rw stays (after_event-Kept p t n command text c acc prev h)
    | inr moves ↦ rw moves (entered-Kept s n command text p t c acc prev h)
  ]

  numbered-Kept :
      (f : Fsm) (command text : Bytes) (t : ℤ) (n : Option ℕ) (c : Conn)
      → accepted c.previous t ≡ n
      → Kept c
      → Kept (numbered f msiz full command text n c)
  unfolding numbered
  numbered-Kept f command text t none c acc h = h
  numbered-Kept f command text t (some n) c acc h =
      handled-Kept (f.fire events c.machine command) n command text c.previous t
        (record c { previous = some n }) acc refl h

  checked-Kept :
      (f : Fsm) (l : Command) (t : Option ℤ) (c : Conn) → Kept c → Kept (checked f msiz full l t c)
  unfolding checked
  checked-Kept f l none c h = h
  checked-Kept f l (some t) c h =
      numbered-Kept f l.command l.text t (accepted c.previous t) c refl h

  pub scan-Kept : (f : Fsm) (l : Command) (c : Conn) → Kept c → Kept (scan f msiz full l c)
  unfolding scan
  scan-Kept f l c h = checked-Kept f l l.txnr c h
