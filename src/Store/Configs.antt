-- ===== src/Store/Configs.antt =====
-- The configurations that messages refer to (store/store.go): `StoreSyslogConfig` and
-- `GetSyslogConfig`. `import_config` is
-- `conf.ImportSyslogConfig`, whose decoder is a library.
pub mod Once
use skewer.Prelude.{Bool, true, false, Option, none, some, [], ◌∷◌, ◌++◌, Bytes}
use skewer.Prelude.Outcome.{Outcome, ok, err}
use skewer.Store.Badger.{Error, wrapped, Badger, Plan, answer, later, Txn, Helper, wrap}
use skewer.Store.Partition.{get, set, exists?}
use skewer.Store.Partition.Keys.{configs, prefix}

module _ {D : Type 0} where
  abbrev pub commit_wrapped :
      D → Outcome Error (Unit {0}) → Txn D → Option Error → Outcome Error (Unit {0}) × D × Plan
  commit_wrapped d (err e) t a = (err e, d, t.plan)
  commit_wrapped d (ok u) t none = (ok u, t.view, later t.plan)
  commit_wrapped d (ok u) t (some e) = (err (wrapped e), d, later t.plan)

module _ {D : Type 0} ⦃b : Badger D⦄ where
  abbrev pub after_exists :
      Bytes → Bytes → D → Outcome Error Bool × Txn D → Outcome Error (Unit {0}) × D × Plan
  after_exists id exported d (err e, t) = (err e, d, t.plan)
  after_exists id exported d (ok true, t) = (ok tt, d, t.plan)
  after_exists id exported d (ok false, t) =
      let (r, t') = wrap (set (prefix configs) id exported) t in
      commit_wrapped d r t' (answer t'.plan)

  -- `StoreSyslogConfig`; `exported` is `config.Export()`.
  unfoldable pub store_syslog_config : Bytes → Bytes → Helper D (Unit {0})
  store_syslog_config id exported d plan =
      after_exists id exported d
        (wrap (exists? (prefix configs) id) (record { view = d; plan = plan }))

module _ {C : Type 0} where
  abbrev imported : (Bytes → Option C) → Outcome Error Bytes → Option C
  imported import_config (err e) = none
  imported import_config (ok []) = none
  imported import_config (ok (x ∷ v)) = import_config (x ∷ v)

module _ {D C : Type 0} ⦃b : Badger D⦄ where
  -- `GetSyslogConfig`; `none` stands for its errors. An empty value is copied to a nil slice.
  pub get_syslog_config : (Bytes → Option C) → Bytes → D → Plan → Option C
  get_syslog_config import_config id d plan =
      imported import_config (get (prefix configs) id (record { view = d; plan = plan })).0
