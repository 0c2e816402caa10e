-- ===== src/Store/Configs/Once.antt =====
-- A configuration is stored once, and nothing else changes.
use mathlib.Core.Path.{subst}
use skewer.Prelude.{
  equal_self, Option-cases, inl, inr, Bool, true, false, Option, none, some, [], ◌∷◌, ◌++◌, ◌≡◌,
  refl, ap, ◌∙◌, arith, Bytes, equal, equal_iff, is_some, if◌then◌else◌,
}
use skewer.Prelude.Outcome.{Outcome, ok, err}
use skewer.Store.Badger.{Error, Badger, Plan, Txn, wrap, txn_get, answer, got}
use skewer.Store.Badger.Triple.{Contents, OnOk, Triple-wrap, Holds, After}
use skewer.Store.Partition.{set, get}
use skewer.Store.Partition.Keys.{configs, prefix}
use skewer.Store.Partition.Effects.{put_all, Triple-to}
use skewer.Store.Acks.Effects.{set_lem}
use skewer.Store.Prune.Walk.{exists_lem}
use skewer.Store.Configs.{
  commit_wrapped, after_exists, store_syslog_config, imported, get_syslog_config,
}

-- The contents after the configuration is stored, where there was none.
abbrev pub stored_once : Contents → Bytes → Bytes → Contents
stored_once o id exported j =
    if equal (prefix configs ++ id) j then (if is_some (o j) then o j else some exported) else o j

put_once :
    (o : Contents) (id exported : Bytes)
    → false ≡ is_some (o (prefix configs ++ id))
    → (j : Bytes) → put_all o (prefix configs) (id ∷ []) exported j ≡ stored_once o id exported j
put_once o id exported absent j =
    let key = prefix configs ++ id in
    let cong : (key ≡ j) → o key ≡ o j = ap o in ground (arith, equal_iff key j, cong)

module _ {D : Type 0} ⦃b : Badger D⦄ where
  commit_wrapped-After :
      (Q : D → Type 0) (d : D) (r : Outcome Error (Unit {0}) × Txn D) (a : Option Error)
      → OnOk (λ _. Q) r
      → After (λ _. Q) d (commit_wrapped d r.0 r.1 a)
  commit_wrapped-After Q d (ok u, t) none h = h
  commit_wrapped-After Q d (ok u, t) (some e) h = refl
  commit_wrapped-After Q d (err e, t) a h = refl

  after_exists-After :
      (o : Contents) (id exported : Bytes) (d : D) (r : Outcome Error Bool × Txn D)
      → Holds o d
      → OnOk (λ have x. Holds o x × (have ≡ is_some (o (prefix configs ++ id)))) r
      → After (λ _. Holds (stored_once o id exported)) d (after_exists id exported d r)
  after_exists-After o id exported d (err e, t) h k = refl
  after_exists-After o id exported d (ok true, t) h k = λ j.
      let key = prefix configs ++ id in
      let cong : (key ≡ j) → o key ≡ o j = ap o in ground (arith, h j, k.1, equal_iff key j, cong)
  after_exists-After o id exported d (ok false, t) h k =
      commit_wrapped-After (Holds (stored_once o id exported)) d
        (wrap (set (prefix configs) id exported) t) _
        ((Triple-wrap
            (Triple-to _ (put_once o id exported k.1) (set_lem o (prefix configs) id exported))).at
          t k.0)

  -- `StoreSyslogConfig` stores a configuration under an id that has none, keeps the one that is
  -- there otherwise, and touches no other key; on an error nothing has changed.
  pub store_syslog_config-once :
      (id exported : Bytes) (d : D) (plan : Plan)
      → After
          (λ _. Holds (stored_once (b.get d) id exported))
          d
          (store_syslog_config id exported d plan)
  unfolding store_syslog_config
  store_syslog_config-once id exported d plan =
      after_exists-After (b.get d) id exported d _ (λ j. refl)
        ((Triple-wrap (exists_lem (b.get d) (prefix configs) id)).at
          (record { view = d; plan = plan }) (λ j. refl))

abbrev pub first_stored : Option Bytes → Bytes → Bytes
first_stored none exported = exported
first_stored (some v) exported = v

found_once :
    (o : Contents) (id exported : Bytes)
    → stored_once o id exported (prefix configs ++ id)
      ≡ some (first_stored (o (prefix configs ++ id)) exported)
found_once o id exported = elim (Option-cases (o (prefix configs ++ id))) [
  | inl missing ↦ rw (equal_self (prefix configs ++ id), missing) refl
  | inr (v, there) ↦ rw (equal_self (prefix configs ++ id), there) refl
]

-- What a configuration's bytes are read as: an empty value is none.
abbrev pub read_as : {C : Type 0} → (Bytes → Option C) → Bytes → Option C
read_as import_config [] = none
read_as import_config (x ∷ v) = import_config (x ∷ v)

-- A reading that fails where the call does.
abbrev pub unless_failed : {C : Type 0} → Option Error → Option C → Option C
unless_failed none c = c
unless_failed (some e) c = none

module _ {C : Type 0} where
  imported-got :
      (import_config : Bytes → Option C) (v : Bytes) (a : Option Error)
      → imported import_config (got a (some v)) ≡ unless_failed a (read_as import_config v)
  imported-got import_config [] none = refl
  imported-got import_config (x ∷ v) none = refl
  imported-got import_config v (some e) = refl

module _ {D C : Type 0} ⦃b : Badger D⦄ where
  get-found :
      (import_config : Bytes → Option C) (id v : Bytes) (d : D) (plan : Plan)
      → b.get d (prefix configs ++ id) ≡ some v
      → get_syslog_config import_config id d plan
        ≡ unless_failed (answer plan) (read_as import_config v)
  unfolding get_syslog_config get txn_get
  get-found import_config id v d plan h =
      ap (λ o. imported import_config (got (answer plan) o)) h
      ∙ imported-got import_config v (answer plan)

  -- After `StoreSyslogConfig` without an error, `GetSyslogConfig` reads the configuration that was
  -- first stored under the id, or fails: where the call of badger does, where the stored value is
  -- empty, and where it cannot be imported.
  pub get_syslog_config-store :
      (import_config : Bytes → Option C) (id exported : Bytes) (d d' : D)
      (plan plan' reading : Plan)
      → store_syslog_config id exported d plan ≡ (ok tt, d', plan')
      → get_syslog_config import_config id d' reading
        ≡ unless_failed
            (answer reading)
            (read_as import_config (first_stored (b.get d (prefix configs ++ id)) exported))
  get_syslog_config-store import_config id exported d d' plan plan' reading e =
      let holds =
        subst (After (λ _. Holds (stored_once (b.get d) id exported)) d) e
          (store_syslog_config-once id exported d plan) in
      get-found import_config id _ d' reading
        (holds (prefix configs ++ id) ∙ found_once (b.get d) id exported)
