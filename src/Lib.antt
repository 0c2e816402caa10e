-- ===== src/Lib.antt =====
-- The message store of skewer, and the formats around it.
--
-- skewer takes log messages from its services, keeps them in a badger database until every
-- destination has acknowledged them, and forwards them. The store (store/store.go) is the part that
-- must not lose a message. This library models it with the code that it stands on.
--
-- Parts, and the files that model them:
--   * Conf.Destination: the kinds of destinations and the sets of them (conf/destinations.go).
--   * Frames: the frames that the processes of skewer write to each other, encrypted or signed
--     (utils/split.go, over utils/sbox/sbox.go and ed25519 as parameters with their documented laws).
--     Frames.Fields: the words of the header of a RELP line (`NFields` of the same file).
--   * Encoders.Rfc5424: messages as RFC 5424 text (encoders/rfc5424.go). Encoders.Rfc3164 and
--     Decoders.Rfc3164: the old format, written and read (encoders/rfc3164.go,
--     decoders/rfc3164_format.go), on ASCII text. The layouts of package time are a parameter;
--     Decoders.Texts has what the code uses of packages strconv and bytes.
--   * Negotiate: the choice of a content type (utils/negotiate.go).
--   * Waiter: the back-off of polling loops (utils/waiter/wait.go).
--   * AckQueue: the queue of the acknowledgements of the clients (utils/queue/ack.go), whose calls
--     are taken one at a time.
--   * Ring: the lock-free bounded queue of the services, as steps of threads (utils/queue/ring.go).
--   * Conv: the times that the failed queues hold, as bytes (utils/conv.go).
--   * Javascript: the topic, the partition and the filter of a message (javascript/vm.go), over goja
--     as a parameter. Dests: the loops of the destinations (store/dests/base.go). Forwarder: the
--     batches of the store on their way to a destination (store/forwarder.go); `retrieve` gives it
--     at most `BatchSize` messages, which its buffer has room for.
--   * Relp: a connection of the RELP service, as steps of its goroutines (services/network/relp.go).
--   * Store.Badger: badger, which the source only calls, as a record of operations and of the laws
--     that its documentation states; `NTransaction` (utils/db/interface.go) as a state monad over it;
--     the helpers that open and commit a transaction, and the loops that try one again on
--     `badger.ErrConflict`. Store.Badger.Triple is the program logic for it, Store.Badger.Ends the
--     termination argument.
--   * Store.Partition: one database cut up by key prefixes (utils/db/partition.go,
--     utils/db/iterator.go), and its queues (`getPartitionPrefix`, `NewBackend`).
--   * Store.RefCount: the counts of the pending destinations (utils/refcount.go); the trie under it,
--     a copy of another project's, is a record of operations and laws: what a look-up finds after an
--     insertion or a removal, and that a walk visits each entry once.
--   * Store.State: the state of `MessageStore`. Store.Spec: what the store promises, a function from
--     destinations and messages to the queue that holds the message.
--   * Store.Ingest, Store.Retrieve, Store.Acks, Store.Reset, Store.Prune, Store.Purge, Store.Configs:
--     the operations, each with what it does to the specification's state. Store.Start: the steps of
--     `init` before its goroutines. Store.Feeder: `retrieveAndForward`, as steps of its goroutines,
--     with `Ingest` and `resetFailures` as steps that fill the ready queues. Store.Counts: the
--     reference counts against the queues.
--
-- A fallible call of badger takes its answer from the `plan` of the state: a theorem that holds for
-- every plan holds for every pattern of failures and conflicts. A loop that tries again on a
-- conflict runs on fuel, one round more than the plan has answers left; Store.Badger.Ends shows that
-- this is enough.
--
-- The ring of two nodes or more is safe under every interleaving of the atomic accesses of its
-- threads. The digits of a size are written in 20 rounds, and an int has at most 19 digits.
--
-- Not modelled: the gauges and the log, the pools of buffers, the locks (each operation runs in one
-- transaction of badger, whose isolation is its own), the encryption of the message partition
-- (utils/db/encrypted.go), and everything that only moves bytes to a socket, a file or a library.
pub mod Prelude
pub mod Conv
pub mod Conf
pub mod Frames
pub mod Decoders
pub mod Encoders
pub mod Negotiate
pub mod Waiter
pub mod AckQueue
pub mod Ring
pub mod Javascript
pub mod Dests
pub mod Forwarder
pub mod Relp
pub mod Store
pub mod Samples
