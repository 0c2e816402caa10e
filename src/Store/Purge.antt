-- ===== src/Store/Purge.antt =====
-- The contents that every destination is done with (store/store.go): `PurgeBadger`.
pub mod Effects
use mathlib.Core.Option
use skewer.Prelude.{Option, none, some, List, [], ◌∷◌, Bytes}
use skewer.Prelude.Outcome.{Outcome, ok, err}
use skewer.Store.Badger.{Error, Badger, M, Helper}
use skewer.Store.Partition.{delete_many}
use skewer.Store.Partition.Keys.{messages, prefix}
use skewer.Store.RefCount.{Trie, gc, forget_all}
use skewer.Store.State.{Store, settle}

module _ {D A : Type 0} where
  -- A transaction that the source opens and neither commits nor discards.
  unfoldable pub left_open : M D A → Helper D A
  left_open body d plan = let (r, t) = body (record { view = d; plan = plan }) in (r, d, t.plan)

module _ {D T : Type 0} ⦃b : Badger D⦄ ⦃i : Trie T⦄ where
  abbrev pub purged :
      List Bytes → Outcome Error (Unit {0}) × Store D T → Outcome Error (Unit {0}) × Store D T
  purged us (ok u, s) = (ok u, record s { counts = forget_all us s.counts })
  purged us (err e, s) = (err e, s)

  pub delete_spent : List Bytes → Store D T → Option (Outcome Error (Unit {0}) × Store D T)
  delete_spent [] s = some (ok tt, s)
  delete_spent (u ∷ us) s =
      Option.map (purged (u ∷ us)) (settle (left_open (delete_many (prefix messages) (u ∷ us))) s)

  -- The deferred run of `RunValueLogGC`: an error of it but `ErrNoRewrite` replaces the result.
  abbrev pub collected :
      Option Error → Outcome Error (Unit {0}) × Store D T → Outcome Error (Unit {0}) × Store D T
  collected none r = r
  collected (some e) (r, s) = (err (Error.wrapped e), s)

  -- `PurgeBadger`; `garbage` is the error of `RunValueLogGC`, if there is one.
  pub purge_badger : Option Error → Store D T → Option (Outcome Error (Unit {0}) × Store D T)
  purge_badger garbage s = Option.map (collected garbage) (delete_spent (gc s.counts) s)
