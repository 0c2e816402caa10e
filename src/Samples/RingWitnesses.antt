-- ===== src/Samples/RingWitnesses.antt =====
-- The theorems on the ring, applied to a run: thread 0 puts an item, and thread 1 takes it.
use skewer.Prelude.{ℕ, ◌+◌, ◌≤◌, some, ◌≡◌, refl, arith}
use skewer.Ring.{
  put_seen, get_seen, System, start, now, claim_put, write, publish, claim_get, read, look_put,
  win_put, write_put, end_put, look_get, win_get, read_get, Reachable, begin, step,
}
use skewer.Ring.Safety.{get_read-item, len-bounds}

abbrev seen : System ℕ
seen = now (start 2) 0 (put_seen 0 7)

abbrev published : System ℕ
published = publish 0 0 (write 0 0 7 (claim_put 0 0 7 seen))

abbrev claimed : System ℕ
claimed = claim_get 1 0 (now published 1 (get_seen 0))

abbrev after_read : System ℕ
after_read = read 1 0 claimed

published-Reachable : Reachable 2 published
published-Reachable =
    step
      (step (step (step begin (look_put 0 0 7 refl refl)) (win_put 0 0 7 refl refl))
        (write_put 0 0 7 refl))
      (end_put 0 0 refl)

claimed-Reachable : Reachable 2 claimed
claimed-Reachable = step (step published-Reachable (look_get 1 0 refl refl)) (win_get 1 0 refl refl)

get_read-item_example : some 7 ≡ after_read.item 0
get_read-item_example =
    get_read-item 2 after_read 1 0 (some 7) (omega arith)
      (step claimed-Reachable (read_get 1 0 refl)) refl

len-bounds_example :
    (published.ring.dequeue ≤ published.ring.queue)
    × (published.ring.queue ≤ published.ring.dequeue + published.ring.size)
len-bounds_example = len-bounds 2 published (omega arith) published-Reachable
