-- ===== src/Store/Feeder.antt =====
-- The batches on their way to the forwarders (store/store.go): `retrieveAndForward` as steps of its
-- goroutines. One retrieves batches and puts each into the bucket of its destination; one for every
-- destination takes the batch there and hands it over. The steps of the rest of the store that matter
-- here are `Ingest` and `resetFailures`, which put messages into a ready queue.
--
-- A message is its ULID. What `retrieve` gives for a batch and leaves in the ready queue is left open,
-- and so are the times and the order of the rounds. A step that only waits changes nothing and is
-- left out.
pub mod Lanes
pub mod Once
pub mod Stalls
use skewer.Prelude.{Bool, true, false, List, [], ◌∷◌, ◌++◌, ◌≡◌, Bytes, if◌then◌else◌}
use skewer.Conf.Destination.{Destination}
use skewer.Store.Spec.{same_dest}

-- Where the goroutine of a destination is: at the top of `ForwardLoop`, in the `select` with a batch,
-- behind it and before the bucket is emptied, and returned.
pub data Phase : Type 0 where
  looking : Phase
  holding : List Bytes → Phase
  handed : Phase
  ended : Phase

-- A destination: its ready queue, its bucket, its zero-message flag, its goroutine, and what has happened to its
-- messages: those that `retrieve` gave, those that were sent to `Outputs`, and those refused at the end.
pub record Lane : Type 0 where
  pub ready : List Bytes
  pub bucket : List Bytes
  pub no_messages : Bool
  pub phase : Phase
  pub retrieved : List Bytes
  pub sent : List Bytes
  pub nacked : List Bytes

-- Where the retrieving goroutine is: in `RetrieveLoop`, before `retrieve`, with a batch, without one,
-- in its deferred function, and returned.
pub data Retriever : Type 0 where
  waits : Retriever
  retrieves : Destination → Retriever
  carries : Destination → List Bytes → Retriever
  finds_none : Destination → Retriever
  stops : Retriever
  returned : Retriever

pub record System : Type 0 where
  pub lanes : Destination → Lane
  pub retriever : Retriever
  pub done : Bool
  pub selected : Destination → Bool

abbrev pub at : Destination → Lane → (Destination → Lane) → Destination → Lane
at d l lanes e = if same_dest d e then l else lanes e

-- The deferred function refuses what is left in a bucket.
abbrev pub nack_left : Lane → Lane
nack_left l = record l { nacked = l.nacked ++ l.bucket; bucket = [] }

-- A step of `Ingest` for a destination, or any other step.
pub data Label : Type 0 where
  ingests : Destination → Label
  other : Label

pub data Step (s : System) : Label → System → Type 0 where
  -- The goroutine of a destination that is selected loads its bucket, and there is a batch.
  load :
      (d : Destination) (m : Bytes) (ms : List Bytes)
      → s.selected d ≡ true
      → (s.lanes d).phase ≡ looking
      → (s.lanes d).bucket ≡ m ∷ ms
      → Step s other
          (record s { lanes = at d (record (s.lanes d) { phase = holding (m ∷ ms) }) s.lanes })
  -- `s.Outputs(dest) <- msgs`
  hand :
      (d : Destination) (ms : List Bytes)
      → (s.lanes d).phase ≡ holding ms
      → Step s other (record s {
        lanes = at d (record (s.lanes d) { phase = handed; sent = (s.lanes d).sent ++ ms }) s.lanes;
      })
  -- `bucket[dest].Store(nil)`
  clear :
      (d : Destination)
      → (s.lanes d).phase ≡ handed
      → Step s other
          (record s { lanes = at d (record (s.lanes d) { phase = looking; bucket = [] }) s.lanes })
  -- `case <-lctx.Done(): return`, at the top of the loop or in place of the send
  leave_looking :
      (d : Destination)
      → s.done ≡ true
      → (s.lanes d).phase ≡ looking
      → Step s other (record s { lanes = at d (record (s.lanes d) { phase = ended }) s.lanes })
  leave_holding :
      (d : Destination) (ms : List Bytes)
      → s.done ≡ true
      → (s.lanes d).phase ≡ holding ms
      → Step s other (record s { lanes = at d (record (s.lanes d) { phase = ended }) s.lanes })
  -- A round of `RetrieveLoop` for a destination that passes the tests.
  check :
      (d : Destination)
      → s.retriever ≡ waits
      → s.selected d ≡ true
      → (s.lanes d).bucket ≡ []
      → (s.lanes d).no_messages ≡ false
      → Step s other (record s { retriever = retrieves d })
  -- `retrieve` gives a batch, nothing, or an error.
  get :
      (d : Destination) (m : Bytes) (ms left : List Bytes)
      → s.retriever ≡ retrieves d
      → Step s other (record s {
        retriever = carries d (m ∷ ms);
        lanes =
            at d
              (record (s.lanes d) { retrieved = (s.lanes d).retrieved ++ m ∷ ms; ready = left })
              s.lanes;
      })
  get_none :
      (d : Destination) (left : List Bytes)
      → s.retriever ≡ retrieves d
      → Step s other (record s {
        retriever = finds_none d;
        lanes = at d (record (s.lanes d) { ready = left }) s.lanes;
      })
  get_fails :
      (d : Destination)
      → s.retriever ≡ retrieves d
      → Step s other (record s { retriever = stops; done = true })
  -- `bucket[currentDest].Store(messages)`
  put :
      (d : Destination) (ms : List Bytes)
      → s.retriever ≡ carries d ms
      → Step s other (record s {
        retriever = waits;
        lanes = at d (record (s.lanes d) { bucket = ms }) s.lanes;
      })
  -- `s.zeroMsgFlags[currentDest].Store(true)`
  flag :
      (d : Destination)
      → s.retriever ≡ finds_none d
      → Step s other (record s {
        retriever = waits;
        lanes = at d (record (s.lanes d) { no_messages = true }) s.lanes;
      })
  -- The context is done; the retrieving goroutine sees it.
  cancel : Step s other (record s { done = true })
  stop : s.retriever ≡ waits → s.done ≡ true → Step s other (record s { retriever = stops })
  -- `wg.Wait()`, and then the loop over the destinations
  finish :
      s.retriever ≡ stops
      → ((d : Destination) → (s.lanes d).phase ≡ ended)
      → Step s other (record s { retriever = returned; lanes = λ d. nack_left (s.lanes d) })
  -- `Ingest` for a destination puts new messages into its ready queue and clears its flag.
  ingest :
      (d : Destination) (us : List Bytes)
      → Step s (ingests d) (record s {
        lanes =
            at d
              (record (s.lanes d) { no_messages = false; ready = (s.lanes d).ready ++ us })
              s.lanes;
      })
  -- `resetFailures` puts expired messages back into the ready queue of a destination, and leaves its
  -- flag as it is.
  push_back :
      (d : Destination) (us : List Bytes)
      → Step s other (record s {
        lanes = at d (record (s.lanes d) { ready = (s.lanes d).ready ++ us }) s.lanes;
      })
  -- `SetDestinations`
  select : (sel : Destination → Bool) → Step s other (record s { selected = sel })

abbrev pub new_lane : List Bytes → Lane
new_lane ready = record {
  ready = ready;
  bucket = [];
  no_messages = false;
  phase = looking;
  retrieved = [];
  sent = [];
  nacked = [];
}

-- The ready queues hold what the last run has left.
abbrev pub start : (Destination → List Bytes) → System
start ready = record {
  lanes = λ d. new_lane (ready d);
  retriever = waits;
  done = false;
  selected = λ d. false;
}

pub data Reachable : System → Type 0 where
  begins : (ready : Destination → List Bytes) → Reachable (start ready)
  steps : {s s' : System} (k : Label) → Reachable s → Step s k s' → Reachable s'
