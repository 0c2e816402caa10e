-- ===== src/Ring.antt =====
-- The lock-free bounded queue of the services (utils/queue/ring.go), and the threads that call it.
--
-- Each atomic access of `put` and `Poll` is a step, so that the steps of the threads may come in any
-- order. The nodes are two functions of a slot. Their number is a power of two, so that
-- `pos & rb.mask` is `pos % size`; the positions are not cut to 64 bits. A thread may give up at any
-- point before it wins its CAS, as it does in `Offer`, at a timeout and on a disposed ring.
pub mod Window
pub mod Invariant
pub mod Nodes
pub mod Put
pub mod Take
pub mod Safety
use skewer.Prelude.{
  ℕ, suc, ◌+◌, ◌%◌, ◌≤◌, Bool, true, false, Option, none, some, ◌≡◌, ◌==◌, if◌then◌else◌,
}

module _ {A : Type 0} where
  abbrev pub set : (ℕ → A) → ℕ → A → ℕ → A
  set f i x j = if i == j then x else f j

-- `Ring`, with the positions and the data of its nodes
pub record Ring (A : Type 0) : Type 0 where
  pub size : ℕ
  pub queue : ℕ
  pub dequeue : ℕ
  pub position : ℕ → ℕ
  pub content : ℕ → Option A

-- Where a thread is in `put` or `Poll`. Having seen that the node is ready, it tries the CAS; having
-- won the CAS, it owns the position.
pub data Thread (A : Type 0) : Type 0 where
  idle : Thread A
  put_seen : ℕ → A → Thread A
  put_owns : ℕ → A → Thread A
  put_wrote : ℕ → Thread A
  get_seen : ℕ → Thread A
  get_owns : ℕ → Thread A
  get_read : ℕ → Option A → Thread A

-- How far the item of a position is on its way; only the proofs read it.
pub data Stage : Type 0 where
  unborn putting wrote filled getting taken done : Stage

pub record System (A : Type 0) : Type 0 where
  pub ring : Ring A
  pub threads : ℕ → Thread A
  pub stage : ℕ → Stage
  pub owner : ℕ → ℕ
  pub item : ℕ → Option A

module _ {A : Type 0} where
  -- `NewRing`
  abbrev pub new_ring : ℕ → Ring A
  new_ring n = record { size = n; queue = 0; dequeue = 0; position = λ i. i; content = λ i. none }

  abbrev pub start : ℕ → System A
  start n = record {
    ring = new_ring n;
    threads = λ t. idle;
    stage = λ p. unborn;
    owner = λ p. 0;
    item = λ p. none;
  }

  abbrev pub slot : System A → ℕ → ℕ
  slot s p = p % s.ring.size

  abbrev pub now : System A → ℕ → Thread A → System A
  now s t x = record s { threads = set s.threads t x }

  -- `rb.queue.CAS(pos, pos+1)`
  abbrev pub claim_put : ℕ → ℕ → A → System A → System A
  claim_put t p x s = record s {
    ring = record s.ring { queue = p + 1 };
    threads = set s.threads t (put_owns p x);
    stage = set s.stage p putting;
    owner = set s.owner p t;
    item = set s.item p (some x);
  }

  -- `n.data = item`
  abbrev pub write : ℕ → ℕ → A → System A → System A
  write t p x s = record s {
    ring = record s.ring { content = set s.ring.content (slot s p) (some x) };
    threads = set s.threads t (put_wrote p);
    stage = set s.stage p wrote;
  }

  -- `n.position.Store(pos + 1)`
  abbrev pub publish : ℕ → ℕ → System A → System A
  publish t p s = record s {
    ring = record s.ring { position = set s.ring.position (slot s p) (p + 1) };
    threads = set s.threads t idle;
    stage = set s.stage p filled;
  }

  -- `rb.dequeue.CAS(pos, pos+1)`
  abbrev pub claim_get : ℕ → ℕ → System A → System A
  claim_get t p s = record s {
    ring = record s.ring { dequeue = p + 1 };
    threads = set s.threads t (get_owns p);
    stage = set s.stage p getting;
    owner = set s.owner p t;
  }

  -- `data := n.data; n.data = zero`
  abbrev pub read : ℕ → ℕ → System A → System A
  read t p s = record s {
    ring = record s.ring { content = set s.ring.content (slot s p) none };
    threads = set s.threads t (get_read p (s.ring.content (slot s p)));
    stage = set s.stage p taken;
  }

  -- `n.position.Store(pos + rb.mask + 1)`
  abbrev pub release : ℕ → ℕ → System A → System A
  release t p s = record s {
    ring = record s.ring { position = set s.ring.position (slot s p) (p + s.ring.size) };
    threads = set s.threads t idle;
    stage = set s.stage p done;
  }

  -- One atomic access by one thread. A thread that has seen a node ready may find that the CAS
  -- fails, and starts again.
  pub data Step (s : System A) : System A → Type 0 where
    look_put :
        (t p : ℕ) (x : A)
        → s.threads t ≡ idle
        → s.ring.position (slot s p) ≡ p
        → Step s (now s t (put_seen p x))
    win_put :
        (t p : ℕ) (x : A)
        → s.threads t ≡ put_seen p x
        → s.ring.queue ≡ p
        → Step s (claim_put t p x s)
    lose_put : (t p : ℕ) (x : A) → s.threads t ≡ put_seen p x → Step s (now s t idle)
    write_put : (t p : ℕ) (x : A) → s.threads t ≡ put_owns p x → Step s (write t p x s)
    end_put : (t p : ℕ) → s.threads t ≡ put_wrote p → Step s (publish t p s)
    look_get :
        (t p : ℕ)
        → s.threads t ≡ idle
        → s.ring.position (slot s p) ≡ p + 1
        → Step s (now s t (get_seen p))
    win_get : (t p : ℕ) → s.threads t ≡ get_seen p → s.ring.dequeue ≡ p → Step s (claim_get t p s)
    lose_get : (t p : ℕ) → s.threads t ≡ get_seen p → Step s (now s t idle)
    read_get : (t p : ℕ) → s.threads t ≡ get_owns p → Step s (read t p s)
    end_get : (t p : ℕ) (y : Option A) → s.threads t ≡ get_read p y → Step s (release t p s)

  -- What may happen on a ring of `n` nodes.
  pub data Reachable (n : ℕ) : System A → Type 0 where
    begin : Reachable n (start n)
    step : {s s' : System A} → Reachable n s → Step s s' → Reachable n s'
