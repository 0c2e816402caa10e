-- ===== src/Samples/FeederWitnesses.antt =====
-- A run of `retrieveAndForward` with one batch sent and one refused, on which the theorems are
-- applied.
use skewer.Prelude.{true, false, List, [], ◌∷◌, ◌++◌, ◌≡◌, refl, Bytes, codes}
use skewer.Conf.Destination.{
  Destination, kafka, udp, tcp, relp, file, stderr, graylog, http, nats, http_server,
  websocket_server, elasticsearch, redis, letter, destinations,
}
use skewer.Store.Feeder.{
  looking, handed, holding, ended, waits, carries, stops, returned, System, at, nack_left, other,
  load, hand, clear, leave_looking, check, get, put, cancel, stop, finish, push_back, select, start,
  Reachable, begins, steps,
}
use skewer.Store.Feeder.Once.{feed_once}
use skewer.Store.Feeder.Stalls.{Run, stays, goes, flagged_stalls}

abbrev first : Bytes
first = codes "first"

abbrev second : Bytes
second = codes "second"

abbrev chosen : System
chosen = record (start (λ d. [])) { selected = λ d. true }

-- The retrieving goroutine gives a batch of one to `udp`.
abbrev given : Bytes → System → System
given m s = record s {
  retriever = carries udp (m ∷ []);
  lanes =
      at udp (record (s.lanes udp) { retrieved = (s.lanes udp).retrieved ++ m ∷ []; ready = [] })
        s.lanes;
}

abbrev stored : Bytes → System → System
stored m s = record (given m s) {
  retriever = waits;
  lanes = at udp (record ((given m s).lanes udp) { bucket = m ∷ [] }) (given m s).lanes;
}

-- The goroutine of `udp` sends the first batch.
abbrev sent_one : System
sent_one =
    let s = stored first chosen in
    let t = record s {
      lanes = at udp (record (s.lanes udp) { phase = holding (first ∷ []) }) s.lanes;
    } in
    let u = record t {
      lanes =
          at udp (record (t.lanes udp) { phase = handed; sent = (t.lanes udp).sent ++ first ∷ [] })
            t.lanes;
    } in
    record u { lanes = at udp (record (u.lanes udp) { phase = looking; bucket = [] }) u.lanes }

abbrev stopping : System
stopping = record (stored second sent_one) { done = true; retriever = stops }

abbrev leave : Destination → System → System
leave d s = record s { lanes = at d (record (s.lanes d) { phase = ended }) s.lanes }

abbrev leave_all : List Destination → System → System
leave_all [] s = s
leave_all (d ∷ ds) s = leave_all ds (leave d s)

abbrev left : System
left = leave_all destinations stopping

abbrev final : System
final = record left { retriever = returned; lanes = λ d. nack_left (left.lanes d) }

all_ended : (d : Destination) → (left.lanes d).phase ≡ ended
unfolding letter
all_ended kafka = refl
all_ended _ = refl

chosen-Reachable : Reachable chosen
chosen-Reachable = steps other (begins (λ d. [])) (select (λ d. true))

stored-Reachable :
    (s : System) (m : Bytes)
    → s.retriever ≡ waits
    → s.selected udp ≡ true
    → (s.lanes udp).bucket ≡ []
    → (s.lanes udp).no_messages ≡ false
    → Reachable s
    → Reachable (stored m s)
unfolding letter
stored-Reachable s m is sel empty low r =
    steps other (steps other (steps other r (check udp is sel empty low)) (get udp m [] [] refl))
      (put udp (m ∷ []) refl)

sent_one-Reachable : Reachable sent_one
unfolding letter
sent_one-Reachable =
    steps other
      (steps other
        (steps other (stored-Reachable chosen first refl refl refl refl chosen-Reachable)
          (load udp first [] refl refl refl))
        (hand udp (first ∷ []) refl))
      (clear udp refl)

stopping-Reachable : Reachable stopping
unfolding letter
stopping-Reachable =
    steps other
      (steps other (stored-Reachable sent_one second refl refl refl refl sent_one-Reachable) cancel)
      (stop refl refl)

leave-Reachable :
    (s : System) (d : Destination)
    → s.done ≡ true
    → (s.lanes d).phase ≡ looking
    → Reachable s
    → Reachable (leave d s)
leave-Reachable s d done top r = steps other r (leave_looking d done top)

left-Reachable : Reachable left
unfolding letter
left-Reachable = leave-Reachable _ redis refl refl (
    leave-Reachable _ elasticsearch refl refl (
      leave-Reachable _ websocket_server refl refl (
        leave-Reachable _ http_server refl refl (
          leave-Reachable _ nats refl refl (
            leave-Reachable _ http refl refl (
              leave-Reachable _ graylog refl refl (
                leave-Reachable _ stderr refl refl (
                  leave-Reachable _ file refl refl (
                    leave-Reachable _ relp refl refl (
                      leave-Reachable _ tcp refl refl (
                        leave-Reachable _ udp refl refl
                          (leave-Reachable _ kafka refl refl stopping-Reachable))))))))))))

final-Reachable : Reachable final
final-Reachable = steps other left-Reachable (finish refl all_ended)

feed_once_example :
    ((final.lanes udp).retrieved ≡ (final.lanes udp).sent ++ (final.lanes udp).nacked)
    × ((final.lanes udp).bucket ≡ [])
feed_once_example = feed_once final final-Reachable refl udp

-- `udp` is flagged, and a batch is retrieved for `kafka`.
abbrev flagged : System
flagged = record chosen {
  lanes = at udp (record (chosen.lanes udp) { no_messages = true }) chosen.lanes;
}

abbrev kafka_served : System
kafka_served = record flagged {
  retriever = carries kafka (first ∷ []);
  lanes =
      at kafka
        (record (flagged.lanes kafka) {
          retrieved = (flagged.lanes kafka).retrieved ++ first ∷ [];
          ready = [];
        })
        flagged.lanes;
}

-- `resetFailures` puts a message back for `udp`.
abbrev refilled : System
refilled = record kafka_served {
  lanes =
      at udp
        (record (kafka_served.lanes udp) { ready = (kafka_served.lanes udp).ready ++ second ∷ [] })
        kafka_served.lanes;
}

refilled-Run : Run udp flagged refilled
unfolding letter
refilled-Run =
    goes other
      (goes other (goes other stays refl (check kafka refl refl refl refl)) refl
        (get kafka first [] [] refl))
      refl (push_back udp (second ∷ []))

udp_flagged : (flagged.lanes udp).no_messages ≡ true
unfolding letter
udp_flagged = refl

flagged_stalls_example :
    ((refilled.lanes udp).no_messages ≡ true)
    × ((refilled.lanes udp).retrieved ≡ (flagged.lanes udp).retrieved)
    × ((more : List Bytes) × ((refilled.lanes udp).ready ≡ (flagged.lanes udp).ready ++ more))
flagged_stalls_example = flagged_stalls udp flagged refilled udp_flagged refl refilled-Run
