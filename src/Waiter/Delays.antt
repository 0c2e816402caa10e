-- ===== src/Waiter/Delays.antt =====
-- The delays that a waiter gives.
use native.Mathlib.Nat.{pow-suc, pow-le-pow_right}
use skewer.Prelude.{
  ℕ, zero, suc, ◌+◌, ◌-◌, ◌*◌, ◌%◌, ◌^◌, ◌≤◌, ◌<◌, false, ◌≡◌, ◌⊎◌, refl, arith, ltb, leb, min,
  if◌then◌else◌,
}
use skewer.Prelude.Int.{pos, negsuc}
use skewer.Conv.{word, of_word}
use skewer.Waiter.{W, pow, at_most, delay}

pow-exact : (k : ℕ) → 10 ^ k < word → pow 10 k ≡ 10 ^ k
pow-exact zero h = refl
pow-exact (suc k) h =
    let here = pow-exact k (omega (arith, pow-suc 10 k)) in ground (arith, here, pow-suc 10 k)

trillion : (k : ℕ) → k ≤ 12 → 10 ^ k ≤ 10 ^ 12
trillion k h = pow-le-pow_right (omega arith) h

exact : (k : ℕ) → k ≤ 12 → of_word (1000000 * pow 10 k % word) ≡ pos (1000000 * 10 ^ k)
exact k h = ground (arith, pow-exact k, trillion k h)

at_most-min : (n m : ℕ) → at_most (pos n) m ≡ pos (min n m)
at_most-min n m = ground arith

wait :
    (k m : ℕ)
    → k ≤ 12
    → at_most (of_word (1000000 * pow 10 (k % 256) % word)) m ≡ pos (min (1000000 * 10 ^ k) m)
wait k m h =
    let same : k % 256 ≡ k = omega arith in rw (same, exact k h) (at_most-min (1000000 * 10 ^ k) m)

-- The first calls do not sleep; the next 13 wait a millisecond and ten times longer each, up to
-- `maxwait`; and from `steps` on the delay is `maxwait`.
pub delay_lem :
    (e : W)
    → (e.calls ≤ e.midsteps + 12) ⊎ (e.steps ≤ e.calls)
    → delay e ≡ (
        if ltb e.calls e.midsteps
        then pos 0
        else if leb e.steps e.calls
        then pos e.maxwait
        else pos (min (1000000 * 10 ^ (e.calls - e.midsteps)) e.maxwait))
unfolding delay
delay_lem e h = ground (arith, wait (e.calls - e.midsteps) e.maxwait)

-- The fourteenth of those calls overflows: its delay is negative, so that the loop does not wait.
pub delay-overflow :
    (e : W) → e.calls ≡ e.midsteps + 13 → e.calls < e.steps → delay e ≡ negsuc 8446744073709551615
unfolding delay
delay-overflow e h l =
    let thirteen : (e.calls - e.midsteps) % 256 ≡ 13 = omega arith in
    let late : ltb e.calls e.midsteps ≡ false = ground arith in
    let early : leb e.steps e.calls ≡ false = ground arith in rw (late, early, thirteen) refl
