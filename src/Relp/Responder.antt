-- ===== src/Relp/Responder.antt =====
-- What the parsers forward, and the rounds of `handleResponses`.
use skewer.Prelude.{
  ℕ, Bool, true, false, ◌||◌, Option, none, some, List, [], ◌∷◌, ◌++◌, ◌==◌, if◌then◌else◌,
}
use skewer.Relp.State.{waiting, gone, Exchange}

-- `ForwardSucc` or `ForwardFail`, at the end of `parseOne`
unfoldable pub forwarded : ℕ → Bool → Exchange → Exchange
forwarded n true e = record e {
  succ = e.succ ++ n ∷ [];
  reported = e.reported ++ record { txnr = n; good = true } ∷ [];
}
forwarded n false e = record e {
  fail = e.fail ++ n ∷ [];
  reported = e.reported ++ record { txnr = n; good = false } ∷ [];
}

unfoldable pub update : (ℕ → Option Bool) → ℕ → Bool → ℕ → Option Bool
update m n v j = if j == n then some v else m j

abbrev pub has : Option Bool → Bool
has none = false
has (some b) = true

-- A look-up of a key that is missing gives false.
abbrev pub holds : Option Bool → Bool
holds none = false
holds (some b) = b

unfoldable pub mark_success : ℕ → Exchange → Exchange
unfolding update
mark_success n e =
    if has (e.successes n) || has (e.failures n)
    then e
    else record e { successes = update e.successes n true }

unfoldable pub mark_failure : ℕ → Exchange → Exchange
unfolding update
mark_failure n e =
    if has (e.successes n) || has (e.failures n)
    then e
    else record e { failures = update e.failures n true }

-- How a write of a response ends.
pub data Write : Type 0 where
  wrote timed_out broken : Write

-- `writeSuccess` or `writeFailure` of `n`, and the end of the round; a write that has timed out is
-- tried again in the next.
unfoldable pub answer : Write → (good : Bool) → ℕ → Exchange → Exchange
unfolding update
answer wrote true n e = record e {
  successes = update e.successes n false;
  responses = e.responses ++ record { txnr = n; good = true } ∷ [];
  next = none;
}
answer wrote false n e = record e {
  failures = update e.failures n false;
  responses = e.responses ++ record { txnr = n; good = false } ∷ [];
  next = none;
}
answer timed_out good n e = e
answer broken good n e = record e { phase = gone }

-- A round of `Cooking` that has a number.
unfoldable pub cook_next : Write → ℕ → Exchange → Exchange
unfolding answer
cook_next w n e =
    if holds (e.successes n)
    then answer w true n e
    else if holds (e.failures n)
    then answer w false n e
    else record e { phase = waiting }

-- `NextToCommit`
unfoldable pub polled : Write → List ℕ → Exchange → Exchange
unfolding cook_next
polled w [] e = record e { phase = waiting }
polled w (n ∷ comm) e = cook_next w n (record e { next = some n; comm = comm })

unfoldable pub cook_from : Write → Option ℕ → Exchange → Exchange
unfolding cook_next polled
cook_from w (some n) e = cook_next w n e
cook_from w none e = polled w e.comm e

-- One round of `Cooking`
unfoldable pub cook : Write → Exchange → Exchange
unfolding cook_from
cook w e = cook_from w e.next e
