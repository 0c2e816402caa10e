-- ===== src/AckQueue/Order.antt =====
-- `Put` and `GetMany` against a list of states.
use skewer.Prelude.{
  ℕ, zero, suc, Bool, true, false, not, ◌&&◌, none, some, List, [], ◌∷◌, ◌++◌, ◌≡◌, refl, ap, ◌∙◌,
  arith, take, drop, ◌==◌, if◌then◌else◌,
}
use skewer.AckQueue.{
  AState, AckQueue, update, err_disposed, nothing, got, filled, link, put, get, get_next, collect,
  get_many,
}
use skewer.AckQueue.Linked.{
  absent, Linked, update_same, state_elsewhere, link_elsewhere, link_behind,
}

-- The nodes that a queue holds, with their states, the oldest first.
abbrev pub Holds : AckQueue → List (ℕ × AState) → Type 0
Holds q ps = Linked q.next q.state q.tail ps q.head

abbrev pub states : List (ℕ × AState) → List AState
states [] = []
states ((n, x) ∷ ps) = x ∷ states ps

-- No state has the ULID that stands for an empty queue.
abbrev pub no_zero : List (ℕ × AState) → Bool
no_zero [] = true
no_zero ((n, x) ∷ ps) = not (x.uid == 0) && no_zero ps

link_lem :
    (b : Bool) (m : ℕ) (x : AState) (q : AckQueue) (ps : List (ℕ × AState))
    → (q.tail == m) ≡ false
    → absent m ps ≡ true
    → q.next m ≡ none
    → q.state m ≡ x
    → Holds q ps
    → ((link b m q).0 ≡ not b) × Holds (link b m q).1 (if b then ps else ps ++ (m, x) ∷ [])
unfolding link
link_lem true m x q ps f h en es l = (refl, l)
link_lem false m x q ps f h en es l =
    (refl, link_behind q.next q.state q.tail ps q.head m x f h en es l)

-- `Put` with a node that is not in the queue puts the state behind all others, unless the queue is
-- disposed: then it returns the error, and the queue holds what it held.
pub put-Holds :
    (m : ℕ) (x : AState) (q : AckQueue) (ps : List (ℕ × AState))
    → (q.tail == m) ≡ false
    → absent m ps ≡ true
    → Holds q ps
    → ((put m x q).0 ≡ not q.disposed)
      × Holds (put m x q).1 (if q.disposed then ps else ps ++ (m, x) ∷ [])
unfolding put filled
put-Holds m x q ps f h l =
    let fresh =
      link_elsewhere q.next (update q.state m x) q.tail ps q.head m f h
        (state_elsewhere q.next q.state q.tail ps q.head m x h l) in
    link_lem q.disposed m x (filled m x q) ps f h (update_same q.next m m none refl)
      (update_same q.state m m x refl) fresh

after_empty :
    (b : Bool) (q : AckQueue) (f : AckQueue → List AState × AckQueue)
    → collect (if b then err_disposed else nothing, q) f ≡ ([], q)
unfolding collect
after_empty true q f = refl
after_empty false q f = refl

after_got :
    (x : AState) (q : AckQueue) (f : AckQueue → List AState × AckQueue)
    → (x.uid == 0) ≡ false
    → collect (got x, q) f ≡ (x ∷ (f q).0, (f q).1)
unfolding collect
after_got x q f h = rw h refl

-- `GetMany` of a queue whose states have ULIDs other than `ZeroULID` takes the oldest states, at
-- most `max` and all of them where there are fewer, in the order in which they were put; the others
-- stay. A disposed queue is emptied in the same way.
pub get_many_lem :
    (max : ℕ) (q : AckQueue) (ps : List (ℕ × AState))
    → no_zero ps ≡ true
    → Holds q ps
    → ((get_many max q).0 ≡ take max (states ps)) × Holds (get_many max q).1 (drop max ps)
unfolding get_many get get_next collect
get_many_lem zero q ps z l = (refl, l)
get_many_lem (suc max) q [] z l =
    let end : q.next q.tail ≡ none = ap q.next l.0 ∙ l.1 in
    rw (end, get_next, after_empty q.disposed q (get_many max)) (refl, l)
get_many_lem (suc max) q ((n, x) ∷ ps) z (e, s, a, l) =
    let live : (q.state n).uid == 0 ≡ false = rw s (ground arith) in
    let q1 = (get_next q (some n)).1 in
    let behind = state_elsewhere q.next q.state n ps q.head q.tail (q.state n) (ground arith) l in
    let rest = get_many_lem max q1 ps (ground arith) behind in
    rw (e, get_next, after_got (q.state n) q1 (get_many max) live)
      (ap (λ y. y ∷ (get_many max q1).0) s ∙ ap (◌∷◌ x) rest.0, rest.1)
