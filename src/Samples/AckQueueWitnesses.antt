-- ===== src/Samples/AckQueueWitnesses.antt =====
-- The theorems on the queue of acknowledgements, applied to a queue of two states.
use skewer.Prelude.{
  ℕ, zero, suc, ◌+◌, true, false, Option, none, some, List, [], ◌∷◌, ◌++◌, ◌≡◌, refl,
}
use skewer.AckQueue.{AState, AckQueue, put, get_many}
use skewer.AckQueue.Order.{Holds, put-Holds, get_many_lem}

abbrev sample : ℕ → AState
sample n = record { uid = n + 100; dest = 1 }

abbrev two_next : ℕ → Option ℕ
two_next zero = some 1
two_next (suc zero) = some 2
two_next (suc (suc n)) = none

-- The stub at 0, and two nodes.
abbrev two_acks : AckQueue
two_acks = record { next = two_next; state = sample; head = 2; tail = 0; disposed = false }

abbrev held : List (ℕ × AState)
held = (1, sample 1) ∷ (2, sample 2) ∷ []

two_acks-Holds : Holds two_acks held
two_acks-Holds = (refl, refl, refl, (refl, refl, refl, (refl, refl)))

put-Holds_example :
    ((put 7 (sample 7) two_acks).0 ≡ true)
    × Holds (put 7 (sample 7) two_acks).1 (held ++ (7, sample 7) ∷ [])
put-Holds_example = put-Holds 7 (sample 7) two_acks held refl refl two_acks-Holds

get_many_lem_example :
    ((get_many 1 two_acks).0 ≡ sample 1 ∷ []) × Holds (get_many 1 two_acks).1 ((2, sample 2) ∷ [])
get_many_lem_example = get_many_lem 1 two_acks held refl two_acks-Holds
