-- ===== src/Store/Retrieve.antt =====
-- Messages on their way out (store/store.go): `retrieve` and its helpers.
pub mod Fetching
pub mod Contents
pub mod Refine
use mathlib.Core.Option
use skewer.Prelude.{ℕ, suc, Bool, Option, none, some, List, [], ◌∷◌, ◌++◌, Bytes, take, length}
use skewer.Prelude.Outcome.{Outcome, ok, err}
use skewer.Conf.Destination.{Destination}
use skewer.Store.Badger.{
  Error, Badger, Plan, answer, Txn, M, Helper, pure, wrap, ◌>>=◌, ◌>>◌, txn_get, committed,
}
use skewer.Store.Partition.{true_bytes, strip, delete_many, add_many_same}
use skewer.Store.Partition.Keys.{ready, sent, queue, messages, prefix}
use skewer.Store.State.{Store, settle}

-- What the stored bytes of a message go through: snappy's reader and the generated `model.FromBuf`,
-- both outside this model. `none` is an error.
pub record Formats (Msg : Type 0) : Type 0 where
  pub decompress : Bytes → Option Bytes
  pub from_buf : Bytes → Option Msg

-- What `retrieveIterHelper` returns.
pub record Fetched (Msg : Type 0) : Type 0 where
  pub uids : List Bytes
  pub msgs : List Msg
  pub invalid : List Bytes
  pub not_found : ℕ

module _ {Msg : Type 0} (f : Formats Msg) where
  abbrev pub unpacked : Option Bytes → Option Msg
  unpacked none = none
  unpacked (some v) = f.from_buf v

  -- An empty entry is invalid.
  abbrev pub decode : Bytes → Option Msg
  decode [] = none
  decode (x ∷ v) = unpacked (f.decompress (x ∷ v))

  abbrev pub decode_read : Outcome Error Bytes → Option Msg
  decode_read (err e) = none
  decode_read (ok v) = decode v

abbrev pub missing : Outcome Error Bytes → ℕ → ℕ
missing (err e) n = suc n
missing (ok v) n = n

module _ {Msg : Type 0} where
  -- An entry whose content is `message`, before the later ones.
  abbrev pub keep : Bytes → Option Msg → ℕ → Fetched Msg → Fetched Msg
  keep uid none n r = record r { invalid = uid ∷ r.invalid; not_found = n }
  keep uid (some message) n r = record r {
    uids = uid ∷ r.uids;
    msgs = message ∷ r.msgs;
    not_found = n;
  }

module _ {D : Type 0} ⦃b : Badger D⦄ where
  module _ {Msg : Type 0} (f : Formats Msg) where
    -- The second loop of `retrieveIterHelper`, over the ULIDs that the first has taken.
    pub fetch_all : List Bytes → Txn D → Fetched Msg × Txn D
    fetch_all [] t = (record { uids = []; msgs = []; invalid = []; not_found = 0 }, t)
    fetch_all (uid ∷ uids) t =
        let (value, t') = txn_get (prefix messages ++ uid) t in
        let (rest, t'') = fetch_all uids t' in
        (keep uid (decode_read f value) (missing value rest.not_found) rest, t'')

  drop_invalid : Destination → List Bytes → M D (Unit {0})
  drop_invalid dest [] = pure tt
  drop_invalid dest (u ∷ us) =
      wrap (delete_many (prefix (queue ready dest)) (u ∷ us))
      >> wrap (delete_many (prefix messages) (u ∷ us))

  move_sent : Destination → List Bytes → M D (Unit {0})
  move_sent dest [] = pure tt
  move_sent dest (u ∷ us) =
      wrap (add_many_same (prefix (queue sent dest)) (u ∷ us) true_bytes)
      >> wrap (delete_many (prefix (queue ready dest)) (u ∷ us))

  module _ {Msg : Type 0} where
    -- The writes of `tryRetrieveHelper`.
    pub write_fetched : Destination → Fetched Msg → M D (Fetched Msg)
    write_fetched dest r = drop_invalid dest r.invalid >> (move_sent dest r.uids >> pure r)

  module _ {Msg : Type 0} (f : Formats Msg) where
    -- `tryRetrieveHelper`: the first `batch_size` keys of the ready queue
    pub try_retrieve : ℕ → Destination → Helper D (Fetched Msg)
    try_retrieve batch_size dest d plan =
        let p = prefix (queue ready dest) in
        let (r, t) =
          fetch_all f (take batch_size (strip p (b.scan d p))) (record { view = d; plan = plan }) in
        let (w, t') = write_fetched dest r t in committed d w t' (answer t'.plan)

module _ {D T Msg : Type 0} where
  abbrev pub messages_only :
      Outcome Error (Fetched Msg) × Store D T → Outcome Error (List Msg) × Store D T
  messages_only (ok r, s) = (ok r.msgs, s)
  messages_only (err e, s) = (err e, s)

module _ {D T Msg : Type 0} ⦃b : Badger D⦄ (f : Formats Msg) where
  -- `retrieve`
  pub retrieve : Destination → Store D T → Option (Outcome Error (List Msg) × Store D T)
  retrieve dest s = Option.map messages_only (settle (try_retrieve f s.batch_size dest) s)
