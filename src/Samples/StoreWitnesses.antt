-- ===== src/Samples/StoreWitnesses.antt =====
-- The theorems of the store, applied to the sample.
use skewer.Prelude.{
  refl, List, none, Bytes, elem, not, ◌&&◌, is_some, ◌++◌, ℕ, some, [], ◌∷◌, ◌≡◌, inl,
}
use skewer.Prelude.Int.{pos}
use skewer.Prelude.Outcome.{ok, Outcome}
use skewer.Conf.Destination.{udp}
use skewer.Store.Badger.{Error}
use skewer.Store.Partition.Keys.{configs, failed, perm_errors, messages, prefix}
use skewer.Store.RefCount.{Entries, dec_all}
use skewer.Store.State.{Store, settle}
use skewer.Store.Landed.{Landed}
use skewer.Store.Badger.Triple.{Holds, After}
use skewer.Store.Badger.{answer, txn_get, txn_set}
use skewer.Store.Partition
use skewer.Store.Partition.{exists?}
use skewer.Store.Configs.{store_syslog_config, get_syslog_config}
use skewer.Store.Configs.Once.{
  stored_once, first_stored, read_as, unless_failed, store_syslog_config-once,
  get_syslog_config-store,
}
use skewer.Store.Acks.Round.{RoundEnds, apply_acks_refines}
use skewer.Store.Acks.{apply_acks, uids, do_ack, do_nack, do_permanent_error}
use skewer.Store.Acks.Refine.{
  ack_spec, move_spec, do_ack_refines, do_nack_refines, do_permanent_error_refines,
}
use skewer.Store.Reset.{reset_stuck_in_sent, do_reset}
use skewer.Store.Reset.Stuck.{Unstuck, reset_stuck_refines}
use skewer.Store.Reset.Failures.{RetriedAt, do_reset_refines}
use skewer.Store.Retrieve.{retrieve, fetch_all}
use skewer.Store.Retrieve.Fetching.{message_of, fetch_all-calm}
use skewer.Store.Retrieve.Refine.{RetrieveEnds, retrieve_refines}
use skewer.Store.Prune.{prune_orphaned}
use skewer.Store.Prune.Refine.{PruneEnds, prune_orphaned_refines}
use skewer.Store.Purge.{purge_badger}
use skewer.Store.Purge.Effects.{PurgeEnds, purge_badger-keeps}
use skewer.Samples.Tables.{Db, table_badger, table_trie}
use skewer.Samples.Stores.{
  sample, sample_at, sample-IsAt, ack_one, one-IsSent, ready_sample, ready_at, ready_sample-IsAt,
  plain, one, two,
}

do_ack_refines_example :
    (r : Outcome Error (Unit {0}) × Store Db Entries) × (do_ack (ack_one ∷ []) sample ≡ some r)
    × Landed sample
        (ack_spec sample_at (ack_one ∷ []))
        (dec_all (uids (ack_one ∷ [])) sample.counts)
        r
do_ack_refines_example = do_ack_refines (ack_one ∷ []) sample sample_at sample-IsAt

do_nack_refines_example :
    (r : Outcome Error (Unit {0}) × Store Db Entries) × (do_nack (pos 7) (ack_one ∷ []) sample
      ≡ some r)
    × Landed sample (move_spec failed sample_at (ack_one ∷ [])) sample.counts r
do_nack_refines_example =
    do_nack_refines (pos 7) (ack_one ∷ []) sample sample_at sample-IsAt (inl one-IsSent, tt)

do_permanent_error_refines_example :
    (r : Outcome Error (Unit {0}) × Store Db Entries) × (do_permanent_error
        (pos 7)
        (ack_one ∷ [])
        sample
      ≡ some r)
    × Landed sample (move_spec perm_errors sample_at (ack_one ∷ [])) sample.counts r
do_permanent_error_refines_example =
    do_permanent_error_refines (pos 7) (ack_one ∷ []) sample sample_at sample-IsAt
      (inl one-IsSent, tt)

reset_stuck_refines_example :
    (r : Outcome Error (Unit {0}) × Store Db Entries) × (reset_stuck_in_sent sample ≡ some r)
    × Unstuck sample sample_at r
reset_stuck_refines_example = reset_stuck_refines sample sample_at sample-IsAt

do_reset_refines_example :
    (r : Outcome Error (ℕ × ℕ) × Store Db Entries) × (settle (do_reset (pos 60000000002) udp) sample
      ≡ some r)
    × RetriedAt (pos 60000000002) udp sample sample_at r
do_reset_refines_example = do_reset_refines (pos 60000000002) udp sample sample_at sample-IsAt

retrieve_refines_example :
    (r : Outcome Error (List Bytes) × Store Db Entries) × (retrieve plain udp ready_sample ≡ some r)
    × RetrieveEnds plain udp ready_sample ready_at r
retrieve_refines_example = retrieve_refines plain udp ready_sample ready_at ready_sample-IsAt

fetch_all-calm_example :
    elem two
      (fetch_all plain (one ∷ two ∷ []) (record { view = ready_sample.db; plan = [] })).0.invalid
    ≡ (elem two (one ∷ two ∷ [])
        && not (
            is_some (message_of plain (table_badger.get ready_sample.db (prefix messages ++ two)))))
fetch_all-calm_example = fetch_all-calm plain (one ∷ two ∷ []) ready_sample.db two

prune_orphaned_refines_example :
    (r : Outcome Error (Unit {0}) × Store Db Entries) × (prune_orphaned sample ≡ some r)
    × PruneEnds sample sample_at r
prune_orphaned_refines_example = prune_orphaned_refines sample sample_at sample-IsAt

purge_badger-keeps_example :
    (r : Outcome Error (Unit {0}) × Store Db Entries) × (purge_badger none ready_sample ≡ some r)
    × PurgeEnds ready_sample r
purge_badger-keeps_example = purge_badger-keeps none ready_sample

apply_acks_refines_example :
    (r : Outcome Error (Unit {0}) × Store Db Entries) × (apply_acks
        (pos 7)
        (pos 8)
        []
        (ack_one ∷ [])
        []
        sample
      ≡ some r)
    × RoundEnds sample sample_at [] (ack_one ∷ []) [] r
apply_acks_refines_example =
    apply_acks_refines (pos 7) (pos 8) [] (ack_one ∷ []) [] sample sample_at sample-IsAt
      (inl one-IsSent, tt) tt

store_syslog_config-once_example :
    After
      (λ _. Holds (stored_once (table_badger.get sample.db) one two))
      sample.db
      (store_syslog_config one two sample.db sample.plan)
store_syslog_config-once_example = store_syslog_config-once one two sample.db sample.plan

config_stored :
    store_syslog_config {D = Db} one two [] [] ≡ (ok tt, (prefix configs ++ one, two) ∷ [], [])
unfolding store_syslog_config exists? Partition.get Partition.set txn_get txn_set
config_stored = refl

get_syslog_config-store_example :
    get_syslog_config {D = Db} some one ((prefix configs ++ one, two) ∷ []) (none ∷ [])
    ≡ unless_failed
        (answer (none ∷ []))
        (read_as some (first_stored (table_badger.get [] (prefix configs ++ one)) two))
get_syslog_config-store_example =
    get_syslog_config-store some one two [] ((prefix configs ++ one, two) ∷ []) [] [] (none ∷ [])
      config_stored
