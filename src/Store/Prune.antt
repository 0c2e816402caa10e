-- ===== src/Store/Prune.antt =====
-- The contents that no queue names (store/store.go): `pruneOrphaned`, at the start of a run.
pub mod Walk
pub mod Refine
use mathlib.Core.Option
use skewer.Prelude.{
  ℕ, Bool, true, false, Option, none, some, List, [], ◌∷◌, Bytes, length, if◌then◌else◌,
}
use skewer.Prelude.Outcome.{Outcome, ok, err}
use skewer.Conf.Destination.{Destination, destinations}
use skewer.Store.Badger.{Error, Badger, M, pure, ◌>>=◌, ◌>>◌, atomically}
use skewer.Store.Partition.{exists?, delete, list_keys}
use skewer.Store.Partition.Keys.{ready, failed, perm_errors, queue, messages, prefix}
use skewer.Store.State.{Store, settle}

module _ {D : Type 0} ⦃b : Badger D⦄ where
  -- The three tests for one destination: a success of one goes on to the next message.
  pub known_at : Destination → Bytes → M D Bool
  known_at dest uid = exists? (prefix (queue ready dest)) uid >>= λ have.
      if have
      then pure true
      else exists? (prefix (queue failed dest)) uid >>= λ have.
          if have then pure true else exists? (prefix (queue perm_errors dest)) uid

  pub known : List Destination → Bytes → M D Bool
  known [] uid = pure false
  known (dest ∷ dests) uid =
      known_at dest uid >>= λ have. let rest = known dests uid in if have then pure true else rest

  -- The loop labelled `L`.
  pub orphans : List Bytes → M D (List Bytes)
  orphans [] = pure []
  orphans (uid ∷ uids) = known destinations uid >>= λ have.
      orphans uids >>= λ rest. pure (if have then rest else uid ∷ rest)

  pub delete_each : List Bytes → M D (Unit {0})
  delete_each [] = pure tt
  delete_each (uid ∷ uids) = delete (prefix messages) uid >> delete_each uids

  -- `prune`, the body of its transaction
  pub prune : M D ℕ
  prune = list_keys (prefix messages) >>= λ uids.
      orphans uids >>= λ orphaned. delete_each orphaned >> pure (length orphaned)

module _ {D T : Type 0} where
  abbrev pub pruned : Outcome Error ℕ × Store D T → Outcome Error (Unit {0}) × Store D T
  pruned (ok n, s) = (ok tt, s)
  pruned (err e, s) = (err (Error.wrapped e), s)

module _ {D T : Type 0} ⦃b : Badger D⦄ where
  -- `pruneOrphaned`
  pub prune_orphaned : Store D T → Option (Outcome Error (Unit {0}) × Store D T)
  prune_orphaned s = Option.map pruned (settle (atomically prune) s)
