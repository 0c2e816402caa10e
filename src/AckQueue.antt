-- ===== src/AckQueue.antt =====
-- The queue of acknowledgements of the clients (utils/queue/ack.go), called by one thread at a time.
--
-- The nodes are two functions of an address, as the source shares them by pointers; a node of
-- `ackPool` is an address that the caller of `put` gives. The ULIDs, 16 bytes, are numbers, and 0 is
-- `ZeroULID`. The calls on a nil queue are left out.
pub mod Linked
pub mod Order
use skewer.Prelude.{
  ℕ, zero, suc, Bool, true, false, Option, none, some, List, [], ◌∷◌, ◌≡◌, refl, ◌==◌,
  if◌then◌else◌,
}

-- `aState`
pub record AState : Type 0 where
  pub uid : ℕ
  pub dest : ℕ

pub record AckQueue : Type 0 where
  pub next : ℕ → Option ℕ
  pub state : ℕ → AState
  pub head : ℕ
  pub tail : ℕ
  pub disposed : Bool

unfoldable pub update : {A : Type 0} → (ℕ → A) → ℕ → A → ℕ → A
update f i v j = if j == i then v else f j

-- What `Get` returns: a state, `ZeroULID` with no error, or `ErrQDisposed`.
pub data Got : Type 0 where
  got : AState → Got
  nothing : Got
  err_disposed : Got

-- The node of `getACKNode`, filled.
unfoldable pub filled : (n : ℕ) (x : AState) → AckQueue → AckQueue
unfolding update
filled n x q = record {
  next = update q.next n none;
  state = update q.state n x;
  head = q.head;
  tail = q.tail;
  disposed = q.disposed;
}

-- The end of `Put`, by `q.Disposed()`; true where it returns no error
unfoldable pub link : Bool → ℕ → AckQueue → Bool × AckQueue
unfolding update
link true n q = (false, q)
link false n q = (
  true,
  record {
    next = update q.next q.head (some n);
    state = q.state;
    head = n;
    tail = q.tail;
    disposed = q.disposed;
  },
)

-- `Put` with the node `n` of the pool
unfoldable pub put : (n : ℕ) (x : AState) → AckQueue → Bool × AckQueue
unfolding filled link
put n x q = link q.disposed n (filled n x q)

unfoldable pub get_next : AckQueue → Option ℕ → Got × AckQueue
unfolding update
get_next q none = (if q.disposed then err_disposed else nothing, q)
get_next q (some n) = (
  got (q.state n),
  record {
    next = q.next;
    state = update q.state q.tail (q.state n);
    head = q.head;
    tail = n;
    disposed = q.disposed;
  },
)

-- `Get`
unfoldable pub get : AckQueue → Got × AckQueue
unfolding get_next
get q = get_next q (q.next q.tail)

-- One round of the loop of `GetMany`; `f` is the rest of it.
unfoldable pub collect :
    Got × AckQueue → (AckQueue → List AState × AckQueue) → List AState × AckQueue
collect (got x, q) f = let (xs, r) = f q in if x.uid == 0 then ([], q) else (x ∷ xs, r)
collect (_, q) f = ([], q)

-- `GetMany(max)`
unfoldable pub get_many : ℕ → AckQueue → List AState × AckQueue
unfolding get collect
get_many zero q = ([], q)
get_many (suc max) q = collect (get q) (get_many max)
