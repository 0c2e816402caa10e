-- ===== src/Relp/Steps.antt =====
-- The steps of the goroutines of a connection.
use skewer.Prelude.{ℕ, Bool, none, List, [], ◌∷◌, ◌++◌, ◌≡◌}
use skewer.Relp.State.{closed, Fsm, Command, Raw, waiting, cooking, Exchange, Conn}
use skewer.Relp.Scanner.{scan}
use skewer.Relp.Responder.{forwarded, mark_success, mark_failure, Write, cook}

-- The steps that leave the scanner alone, in any order. `GetSuccAndFail` returns the head of one
-- queue or of both; the marks of both are then set.
pub data Work (e d : Exchange) : Type 0 where
  begins :
      (r : Raw) (rest : List Raw)
      → e.raws ≡ r ∷ rest
      → d ≡ record e { raws = rest; parsing = e.parsing ++ r ∷ [] }
      → Work e d
  ends :
      (before after : List Raw) (r : Raw) (good : Bool)
      → e.parsing ≡ before ++ r ∷ after
      → d ≡ forwarded r.txnr good (record e { parsing = before ++ after })
      → Work e d
  takes_succ :
      (n : ℕ) (rest : List ℕ)
      → e.phase ≡ waiting
      → e.succ ≡ n ∷ rest
      → d ≡ mark_success n (record e { phase = cooking; succ = rest })
      → Work e d
  takes_fail :
      (n : ℕ) (rest : List ℕ)
      → e.phase ≡ waiting
      → e.fail ≡ n ∷ rest
      → d ≡ mark_failure n (record e { phase = cooking; fail = rest })
      → Work e d
  takes_both :
      (n m : ℕ) (rest rest' : List ℕ)
      → e.phase ≡ waiting
      → e.succ ≡ n ∷ rest
      → e.fail ≡ m ∷ rest'
      → d
        ≡ mark_failure m (mark_success n (record e { phase = cooking; succ = rest; fail = rest' }))
      → Work e d
  cooks : (w : Write) → e.phase ≡ cooking → d ≡ cook w e → Work e d

pub data Step (f : Fsm) (msiz : ℕ) (c d : Conn) : Type 0 where
  scans : (full : Bool) (l : Command) → c.ended ≡ none → d ≡ scan f msiz full l c → Step f msiz c d
  works : {e : Exchange} → Work c.exchange e → d ≡ record c { exchange = e } → Step f msiz c d

-- A new connection.
abbrev pub start : Conn
start = record {
  machine = closed;
  previous = none;
  ended = none;
  replies = [];
  exchange = record {
    raws = [];
    parsing = [];
    comm = [];
    succ = [];
    fail = [];
    phase = waiting;
    next = none;
    successes = λ n. none;
    failures = λ n. none;
    responses = [];
    received = [];
    reported = [];
    lost = [];
  };
}

pub data Reachable (f : Fsm) (msiz : ℕ) : Conn → Type 0 where
  starts : Reachable f msiz start
  then_step : {c d : Conn} → Reachable f msiz c → Step f msiz c d → Reachable f msiz d
