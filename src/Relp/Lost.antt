-- ===== src/Relp/Lost.antt =====
-- A message that is lost does not end the connection, and stays lost.
use mathlib.Core.Path.{subst}
use skewer.Prelude.{
  ℕ, Bool, true, false, Option, none, some, [], ◌∷◌, ◌≡◌, refl, sym, ap, ◌∙◌, arith, Bytes, codes,
  equal, equal_iff, Bool-cases, inl, inr,
}
use skewer.Prelude.Int.{ℤ}
use skewer.Relp.State.{
  RelpState, closed, opened, same_state, Fired, unknown_event, invalid_event, to, Fsm, events,
  Command, Exchange, Conn,
}
use skewer.Relp.Scanner.{
  accepted, end_scan, queued, noted, after_event, entered, handled, numbered, checked, scan,
}
use skewer.Relp.Steps.{Step, scans, works}
use skewer.Relp.Queues.{mem, mem-append}
use skewer.Relp.Scanning.{scan-Kept}
use skewer.Relp.Numbers.{Work-lost}

-- The state of a connection after any steps from `c`.
pub data Later (f : Fsm) (msiz : ℕ) (c : Conn) : Conn → Type 0 where
  so_far : Later f msiz c c
  and_step : {d x : Conn} → Later f msiz c d → Step f msiz d x → Later f msiz c x

mem-queued :
    (k msiz : ℕ) (full : Bool) (n : ℕ) (text : Bytes) (e : Exchange)
    → mem k e.lost ≡ true
    → mem k (queued msiz full n text (noted n e)).lost ≡ true
unfolding queued noted
mem-queued k msiz full n [] e h = h
mem-queued k msiz full n (x ∷ text) e h = ground (arith, mem-append k e.lost (n ∷ []))

Step-lost :
    {f : Fsm} {msiz : ℕ} {c d : Conn} (k : ℕ)
    → Step f msiz c d
    → mem k c.exchange.lost ≡ true
    → mem k d.exchange.lost ≡ true
Step-lost {f} {msiz} {c} k (scans full l going eq) h =
    subst (λ (x : Conn). mem k x.exchange.lost ≡ true) (sym eq)
      (scan-Kept (λ p e. mem k e.lost ≡ true) (λ p t n e acc h'. h')
        (λ p t n e m full' text acc h'. mem-queued k m full' n text e h') msiz full f l c h)
Step-lost {c = c} k (works w eq) h =
    subst (λ (x : Conn). mem k x.exchange.lost ≡ true) (sym eq) (ap (mem k) (Work-lost w) ∙ h)

pub Later-lost :
    {f : Fsm} {msiz : ℕ} {c d : Conn} (k : ℕ)
    → Later f msiz c d
    → mem k c.exchange.lost ≡ true
    → mem k d.exchange.lost ≡ true
Later-lost k so_far h = h
Later-lost k (and_step l s) h = Step-lost k s (Later-lost k l h)

-- Message `k` is lost on the way from `c` to `d`.
abbrev Loses : ℕ → Conn → Conn → Type 0
Loses k c d = (mem k c.exchange.lost ≡ false) × (mem k d.exchange.lost ≡ true)

unlost : (k : ℕ) (c d : Conn) → c.exchange.lost ≡ d.exchange.lost → Loses k c d → ⊥
unlost k c d same (before, after) =
    let clash : false ≡ true = sym before ∙ ap (mem k) same ∙ after in cc

after_event-ended :
    (k msiz : ℕ) (full : Bool) (n : ℕ) (command text : Bytes) (c : Conn)
    → (after_event msiz full n command text c).ended ≡ c.ended
unfolding after_event
after_event-ended k msiz full n command text c = ground arith

-- Only `syslog` loses messages, and it leaves the state as it is.
syslog_stays :
    (f : Fsm) (s t : RelpState) → f.fire events s (codes "syslog") ≡ to t → same_state s t ≡ true
syslog_stays f closed t e = let r = sym (f.fire_lem events closed (codes "syslog")) ∙ e in cc r
syslog_stays f opened opened e = refl
syslog_stays f opened closed e = let r = sym (f.fire_lem events opened (codes "syslog")) ∙ e in cc r

entered-lost :
    (s : RelpState) (n : ℕ) (text : Bytes) (c : Conn)
    → (entered s n text c).exchange.lost ≡ c.exchange.lost
unfolding entered end_scan
entered-lost closed n text c = refl
entered-lost opened n text c = refl

moved-lost :
    (s : RelpState) (msiz : ℕ) (full : Bool) (n : ℕ) (command text : Bytes) (c : Conn)
    → equal command (codes "syslog") ≡ false
    → (after_event msiz full n command text (entered s n text c)).exchange.lost ≡ c.exchange.lost
unfolding after_event
moved-lost s msiz full n command text c other = rw other (entered-lost s n text c)

handled-ended :
    (f : Fsm) (k msiz : ℕ) (full : Bool) (n : ℕ) (command text : Bytes) (fired : Fired) (c : Conn)
    → f.fire events c.machine command ≡ fired
    → Loses k c (handled msiz full n command text fired c)
    → (handled msiz full n command text fired c).ended ≡ c.ended
unfolding handled end_scan
handled-ended f k msiz full n command text unknown_event c e h =
    absurd (unlost k c (handled msiz full n command text unknown_event c) refl h)
handled-ended f k msiz full n command text invalid_event c e h =
    absurd (unlost k c (handled msiz full n command text invalid_event c) refl h)
handled-ended f k msiz full n command text (to s) c e h =
    elim (Bool-cases (same_state c.machine s)) [
      | inl stays ↦ rw stays (after_event-ended k msiz full n command text c)
      | inr moves ↦ elim (Bool-cases (equal command (codes "syslog"))) [
        | inl syslog ↦
            let event = (equal_iff command (codes "syslog")).0 syslog in
            let same =
              syslog_stays f c.machine s (subst (λ x. f.fire events c.machine x ≡ to s) event e) in
            absurd (let clash : false ≡ true = sym moves ∙ same in cc)
        | inr other ↦ absurd (
            unlost k c (handled msiz full n command text (to s) c)
              (sym (rw moves (moved-lost s msiz full n command text c other))) h)
      ]
    ]

numbered-ended :
    (f : Fsm) (k msiz : ℕ) (full : Bool) (command text : Bytes) (n : Option ℕ) (c : Conn)
    → Loses k c (numbered f msiz full command text n c)
    → (numbered f msiz full command text n c).ended ≡ c.ended
unfolding numbered end_scan
numbered-ended f k msiz full command text none c h =
    absurd (unlost k c (numbered f msiz full command text none c) refl h)
numbered-ended f k msiz full command text (some n) c h =
    handled-ended f k msiz full n command text (f.fire events c.machine command)
      (record c { previous = some n }) refl h

-- A command whose message is lost does not end the scan.
pub scan-ended :
    (f : Fsm) (k msiz : ℕ) (full : Bool) (l : Command) (c : Conn)
    → mem k c.exchange.lost ≡ false
    → mem k (scan f msiz full l c).exchange.lost ≡ true
    → (scan f msiz full l c).ended ≡ c.ended
unfolding scan checked end_scan
scan-ended f k msiz full l c before after = go l.txnr (before, after)
  where
    go :
        (t : Option ℤ)
        → Loses k c (checked f msiz full l t c)
        → (checked f msiz full l t c).ended ≡ c.ended
    go none h = absurd (unlost k c (checked f msiz full l none c) refl h)
    go (some t) h = numbered-ended f k msiz full l.command l.text (accepted c.previous t) c h
