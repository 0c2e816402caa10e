-- ===== src/Store/Reset.antt =====
-- Messages pushed back to the ready queue (store/store.go): `resetStuckInSent` at the start of a
-- run, and `resetFailures` every minute.
pub mod Each
pub mod Stuck
pub mod Sorting
pub mod Rounds
pub mod Failures
use mathlib.Core.Option
use skewer.Prelude.{
  ℕ, zero, suc, Bool, true, false, Option, none, some, List, [], ◌∷◌, ◌++◌, Bytes, length, ◌==◌,
  if◌then◌else◌,
}
use skewer.Prelude.Int.{ℤ, at_least}
use skewer.Prelude.Outcome.{Outcome, ok, err}
use skewer.Conv.{bytes_to_time}
use skewer.Conf.Destination.{Destination, destinations}
use skewer.Store.Badger.{
  Error, wrapped, Badger, Plan, answer, Txn, M, Helper, pure, wrap, ◌>>=◌, ◌>>◌, txn_get, committed,
  atomically,
}
use skewer.Store.Partition.{true_bytes, strip, set, list_keys, delete_many, add_many_same}
use skewer.Store.Partition.Keys.{ready, sent, failed, queue, prefix}
use skewer.Store.State.{Store, settle}

-- The entries of the failed queue, sorted by `iterate`.
pub record Sorted : Type 0 where
  pub expired : List Bytes
  pub invalid : List Bytes

-- `time.Minute`
abbrev pub minute : ℕ
minute = 60000000000

-- An entry whose time cannot be read is invalid; one of a minute ago or more has expired.
abbrev pub sort_entry : ℤ → Bytes → Option (ℤ × ℕ) → Sorted → Sorted
sort_entry now uid none r = record r { invalid = uid ∷ r.invalid }
sort_entry now uid (some (t, n)) r =
    if at_least minute t now then record r { expired = uid ∷ r.expired } else r

abbrev pub read_entry : ℤ → Bytes → Outcome Error Bytes → Sorted → Sorted
read_entry now uid (err e) r = record r { invalid = uid ∷ r.invalid }
read_entry now uid (ok timeb) r = sort_entry now uid (bytes_to_time timeb) r

module _ {D : Type 0} ⦃b : Badger D⦄ where
  -- `for _, uid := range uids { err = readyDB.Set(uid, "true", txn) ... }`
  pub set_each : Bytes → List Bytes → Bytes → M D (Unit {0})
  set_each p [] v = pure tt
  set_each p (uid ∷ uids) v = set p uid v >> set_each p uids v

  -- `resetStuckInSentByDest`, the body of the transaction of `reset`
  pub reset_helper : Destination → M D ℕ
  reset_helper dest = list_keys (prefix (queue sent dest)) >>= λ uids.
      delete_many (prefix (queue sent dest)) uids
      >> (set_each (prefix (queue ready dest)) uids true_bytes >> pure (length uids))

  -- The loop over the iterator of the failed queue. Reading an entry's value may fail, and then the
  -- entry is invalid.
  pub sort_all : ℤ → Bytes → List Bytes → Txn D → Sorted × Txn D
  sort_all now p [] t = (record { expired = []; invalid = [] }, t)
  sort_all now p (uid ∷ uids) t =
      let (value, t') = txn_get (p ++ uid) t in
      let (rest, t'') = sort_all now p uids t' in (read_entry now uid value rest, t'')

  delete_invalid : Destination → List Bytes → M D (Unit {0})
  delete_invalid dest [] = pure tt
  delete_invalid dest (u ∷ us) = wrap (delete_many (prefix (queue failed dest)) (u ∷ us))

  move_expired : Destination → List Bytes → M D (Unit {0})
  move_expired dest [] = pure tt
  move_expired dest (u ∷ us) =
      wrap (add_many_same (prefix (queue ready dest)) (u ∷ us) true_bytes)
      >> wrap (delete_many (prefix (queue failed dest)) (u ∷ us))

  -- The writes of `doReset`.
  pub write_sorted : Destination → List Bytes → List Bytes → M D (ℕ × ℕ)
  write_sorted dest expired invalid =
      delete_invalid dest invalid
      >> (move_expired dest expired >> pure (length expired, length invalid))

  -- With nothing to write `doReset` returns and does not commit.
  pub commit_sorted :
      Destination → D → List Bytes → List Bytes → Txn D → Outcome Error (ℕ × ℕ) × D × Plan
  commit_sorted dest d [] [] t = (ok (0, 0), d, t.plan)
  commit_sorted dest d [] (u ∷ invalid) t =
      let (r, t') = write_sorted dest [] (u ∷ invalid) t in committed d r t' (answer t'.plan)
  commit_sorted dest d (u ∷ expired) invalid t =
      let (r, t') = write_sorted dest (u ∷ expired) invalid t in committed d r t' (answer t'.plan)

  -- `doReset`
  pub do_reset : ℤ → Destination → Helper D (ℕ × ℕ)
  do_reset now dest d plan =
      let p = prefix (queue failed dest) in
      let (r, t) = sort_all now p (strip p (b.scan d p)) (record { view = d; plan = plan }) in
      commit_sorted dest d r.expired r.invalid t

module _ {D T A : Type 0} where
  abbrev carry_on :
      (Store D T → Option (Outcome Error (Unit {0}) × Store D T))
      → Option (Outcome Error A × Store D T)
      → Option (Outcome Error (Unit {0}) × Store D T)
  carry_on f none = none
  carry_on f (some (ok a, s)) = f s
  carry_on f (some (err e, s)) = some (err (wrapped e), s)

  -- `for _, dest := range conf.Destinations`, over an operation whose error is wrapped and returned
  pub for_each :
      (Destination → Store D T → Option (Outcome Error A × Store D T))
      → List Destination
      → Store D T
      → Option (Outcome Error (Unit {0}) × Store D T)
  for_each f [] s = some (ok tt, s)
  for_each f (dest ∷ dests) s = carry_on (for_each f dests) (f dest s)

module _ {D T : Type 0} ⦃b : Badger D⦄ where
  -- `resetStuckInSent`
  pub reset_stuck_in_sent : Store D T → Option (Outcome Error (Unit {0}) × Store D T)
  reset_stuck_in_sent = for_each (λ dest. settle (atomically (reset_helper dest))) destinations

  -- `resetFailures`; `now` is the clock as `resetFailuresByDest` reads it for each destination.
  unfoldable pub reset_failures :
      (Destination → ℤ) → Store D T → Option (Outcome Error (Unit {0}) × Store D T)
  reset_failures now = for_each (λ dest. settle (do_reset (now dest) dest)) destinations
