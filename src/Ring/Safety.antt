-- ===== src/Ring/Safety.antt =====
-- What holds of the ring in every state that its threads can reach.
use mathlib.Core.Path.{subst}
use skewer.Prelude.{ℕ, ◌+◌, ◌≤◌, Option, ◌≡◌, sym, ◌∙◌, arith}
use skewer.Ring.{
  put_seen, get_seen, get_owns, get_read, System, idle, Step, look_put, win_put, lose_put,
  write_put, end_put, look_get, win_get, lose_get, read_get, end_get, Reachable, begin, step,
}
use skewer.Ring.Invariant.{Good, Inv, start-Inv, now-Inv}
use skewer.Ring.Put.{claim_put-Inv, write-Inv, publish-Inv}
use skewer.Ring.Take.{claim_get-Inv, read-Inv, release-Inv}

module _ {A : Type 0} where
  Step-Inv : {s s' : System A} → Step s s' → Inv s → Inv s'
  Step-Inv {s} (look_put t p x at ready) i = now-Inv s t (put_seen p x) i (omega arith)
  Step-Inv {s} (win_put t p x at won) i = claim_put-Inv s t p x i at won
  Step-Inv {s} (lose_put t p x at) i = now-Inv s t idle i tt
  Step-Inv {s} (write_put t p x at) i = write-Inv s t p x i at
  Step-Inv {s} (end_put t p at) i = publish-Inv s t p i at
  Step-Inv {s} (look_get t p at ready) i = now-Inv s t (get_seen p) i (omega arith)
  Step-Inv {s} (win_get t p at won) i = claim_get-Inv s t p i at won
  Step-Inv {s} (lose_get t p at) i = now-Inv s t idle i tt
  Step-Inv {s} (read_get t p at) i = read-Inv s t p i at
  Step-Inv {s} (end_get t p y at) i = release-Inv s t p y i at

  Reachable-Inv : (n : ℕ) (s : System A) → 2 ≤ n → Reachable n s → Inv s
  Reachable-Inv n s big begin = start-Inv n big
  Reachable-Inv n s big (step before one) = Step-Inv one (Reachable-Inv n _ big before)

  -- On a ring of two nodes or more, whatever the interleaving: what a get takes at a position is the
  -- item of the put that claimed this position, so that no item is lost, replaced or taken out of
  -- order.
  pub get_read-item :
      (n : ℕ) (s : System A) (t p : ℕ) (y : Option A)
      → 2 ≤ n
      → Reachable n s
      → s.threads t ≡ get_read p y
      → y ≡ s.item p
  get_read-item n s t p y big run at =
      let own = subst (Good s t) at ((Reachable-Inv n s big run).good t) in own.2

  -- No two threads take the item of one position.
  pub get_owns_unique :
      (n : ℕ) (s : System A) (t u p : ℕ)
      → 2 ≤ n
      → Reachable n s
      → s.threads t ≡ get_owns p
      → s.threads u ≡ get_owns p
      → t ≡ u
  get_owns_unique n s t u p big run at at' =
      let i = Reachable-Inv n s big run in
      let own = subst (Good s t) at (i.good t) in
      let own' = subst (Good s u) at' (i.good u) in sym own.1 ∙ own'.1

  -- A ring of two nodes or more never holds more items than it has nodes, and never fewer than none,
  -- under every interleaving of its threads.
  pub len-bounds :
      (n : ℕ) (s : System A)
      → 2 ≤ n
      → Reachable n s
      → (s.ring.dequeue ≤ s.ring.queue) × (s.ring.queue ≤ s.ring.dequeue + s.ring.size)
  len-bounds n s big run = let i = Reachable-Inv n s big run in (i.lower, i.upper)
