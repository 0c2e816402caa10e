-- ===== src/Waiter.antt =====
-- The back-off of the loops that poll (utils/waiter/wait.go). A duration is an int64 of
-- nanoseconds; sleeping is not modelled.
pub mod Delays
use skewer.Prelude.{
  ℕ, zero, suc, ◌+◌, ◌-◌, ◌*◌, ◌/◌, ◌%◌, ◌^◌, Bool, true, false, ltb, leb, if◌then◌else◌,
}
use skewer.Prelude.Int.{ℤ, pos, negsuc}
use skewer.Conv.{word, of_word}

-- `W`, whose `maxwait` is positive
pub record W : Type 0 where
  pub steps : ℕ
  pub midsteps : ℕ
  pub maxwait : ℕ
  pub calls : ℕ

-- 250 milliseconds
abbrev pub quarter : ℕ
quarter = 250000000

abbrev pub longest : ℤ → ℕ
longest (pos zero) = quarter
longest (pos (suc n)) = suc n
longest (negsuc n) = quarter

-- `Waiter(maxwait, steps)`
unfoldable pub waiter : ℤ → ℕ → W
waiter maxwait steps =
    let n = if ltb steps 2 then 50 else steps in
    record { steps = n; midsteps = n / 2; maxwait = longest maxwait; calls = 0 }

-- `Default()`
abbrev pub default : W
default = record { steps = 50; midsteps = 25; maxwait = quarter; calls = 0 }

-- `pow`
abbrev pub pow : ℕ → ℕ → ℕ
pow x zero = 1
pow x (suc y) = pow x y * x % word

abbrev pub at_most : ℤ → ℕ → ℤ
at_most (pos n) m = if ltb m n then pos m else pos n
at_most (negsuc n) m = negsuc n

-- The delay that `Next` returns. A delay of 0 lets other goroutines run.
unfoldable pub delay : W → ℤ
delay e =
    let nb = e.calls in
    if ltb nb e.midsteps
    then pos 0
    else if leb e.steps nb
    then pos e.maxwait
    else at_most (of_word (1000000 * pow 10 ((nb - e.midsteps) % 256) % word)) e.maxwait

-- `Next`: the delay, and the waiter after the call
unfoldable pub next : W → ℤ × W
next e = (delay e, record e { calls = (e.calls + 1) % word })

-- `Reset`
unfoldable pub reset : W → W
reset e = record e { calls = 0 }
