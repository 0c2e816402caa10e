-- ===== src/Store/State.antt =====
-- The state of a `MessageStore` (store/store.go), and how its helpers run on it.
use mathlib.Core.Option
use skewer.Prelude.{ℕ, suc, Bool, false, Option, some, ◌≡◌, refl, arith, length}
use skewer.Prelude.Outcome.{Outcome}
use skewer.Conf.Destination.{Destination}
use skewer.Store.Badger.{Error, Plan, Helper, conflicts, retry}
use skewer.Store.Badger.Triple.{Helps, After, retry-After}
use skewer.Store.Badger.Ends.{Shortens, retry_total}

-- The database with badger's answers to come, the reference counts, and the fields that the
-- operations read or write. `no_messages` is `zeroMsgFlags`.
pub record Store (D T : Type 0) : Type 0 where
  pub db : D
  pub plan : Plan
  pub counts : T
  pub dests : ℕ
  pub batch_size : ℕ
  pub no_messages : Destination → Bool

module _ {D T A : Type 0} where
  abbrev pub with_db : Store D T → Outcome Error A × D × Plan → Outcome Error A × Store D T
  with_db s (r, d, plan) = (r, record s { db = d; plan = plan })

  -- A helper, tried again while it ends in a conflict. Each conflict uses up an answer of the plan,
  -- so one round more than the plan is long is enough.
  unfoldable pub settle : Helper D A → Store D T → Option (Outcome Error A × Store D T)
  settle helper s = Option.map (with_db s) (retry (suc (length s.plan)) helper s.db s.plan)

  -- The loop has ended, not on a conflict, and has changed the database alone, as `Q` says of a
  -- success; on an error it has changed nothing.
  pub record Settled (Q : A → D → Type 0) (s : Store D T) (r : Outcome Error A × Store D T)
      : Type 0 where
    pub after : After Q s.db (r.0, r.1.db, r.1.plan)
    pub no_conflict : conflicts r.0 ≡ false
    pub rest : r.1 ≡ record s { db = r.1.db; plan = r.1.plan }

  pub settle_lem :
      {P : D → Type 0} {Q : A → D → Type 0} (helper : Helper D A) (s : Store D T)
      → Shortens helper
      → Helps P helper Q
      → P s.db
      → (r : Outcome Error A × Store D T) × (settle helper s ≡ some r) × Settled Q s r
  unfolding settle
  settle_lem helper s shortens helps p =
      let (x, ends, calm) =
        retry_total helper (suc (length s.plan)) s.db s.plan shortens (omega arith) in
      (
        with_db s x,
        rw ends,
        record {
          after = retry-After helper (suc (length s.plan)) s.db s.plan helps p ends;
          no_conflict = calm;
          rest = refl;
        },
      )
