-- ===== src/Tests/Publisher.antt =====
-- The memory publisher on concrete histories.
use moirae.Base.{
  ℕ, String, ◌≡◌, refl, false, List, [], ◌∷◌, ◌++◌, arith, some, none, length, ◌≤◌, Option, ap, sym,
  ◌∙◌, map,
}
use moirae.Message.{Message}
use moirae.Base.Dict.{has}
use moirae.Queue.{Queue}
use moirae.Queue
use moirae.Observable.Distributor
use moirae.Observable.Emitter.{listeners}
use moirae.Publisher.{
  not_ready, idle, Publisher, bootstrap, subscribe, publish, settle, reject, advance_bus,
}
use moirae.Publisher.Order.{IsWired}
use moirae.Publisher.Drain.{settle_all}
use moirae.Publisher.History.{
  Call, publishes, settles, run, step, published, AreNew, backlog, run_serial, run_delivers,
}
use moirae.Publisher.Stall.{reject_stalls}
use moirae.Tests.Sample.{no_responses, wire, message_codec, response_codec, wire-WireLaws}

abbrev event : String → ℕ → Message ℕ
event uuid amount = record {
  name = "deposited";
  uuid = uuid;
  stream_id = some "s";
  correlation_id = none;
  metadata = none;
  execution_domain = none;
  response_key = some "r";
  routing_key = none;
  disable_response = false;
  timestamp = 5;
  payload = amount;
}

abbrev pub new : Publisher ℕ ℕ
new = record {
  node_id = "n";
  queue = none;
  status = not_ready;
  distributor = record { uuid = "d"; subscriptions = [] };
  ee = [];
  workers = [];
  running = [];
  delivered = [];
  response_map = no_responses;
}

abbrev pub ready : Publisher ℕ ℕ
ready = subscribe "k" 1 new

abbrev calls : List (Call ℕ ℕ)
calls = publishes "q1" (event "u1" 5) ∷ publishes "q2" (event "u2" 7) ∷ settles 1 ∷ []

pub ready-IsWired : IsWired wire ready
unfolding subscribe Distributor.subscribe Distributor.publish Distributor.channel
    Distributor.listener_count listeners
ready-IsWired = (refl, 1, refl)

-- What a queue that is known holds is read off.
pub key_absent :
    (k : String) (o : Option (Queue String))
    → (elim o [ none ↦ false | some q ↦ has k q.map ]) ≡ false
    → (q : Queue String) → o ≡ some q
    → has k q.map ≡ false
key_absent k o h q e = ap (λ p. elim p [ none ↦ false | some q ↦ has k q.map ]) (sym e) ∙ h

calls-AreNew : AreNew wire calls (bootstrap ready)
unfolding run step published bootstrap subscribe publish advance_bus settle Queue.empty
    Queue.enqueue Queue.dequeue wire message_codec response_codec Distributor.subscribe
    Distributor.publish Distributor.channel Distributor.listener_count listeners Queue.queue_size
calls-AreNew = (
  (refl, key_absent "q1" (bootstrap ready).queue refl),
  (
    (
      refl,
      key_absent "q2" (step wire (publishes "q1" (event "u1" 5)) (bootstrap ready)).queue refl,
    ),
    tt,
  ),
)

run-calls : map (λ e. e.uuid) (run wire calls (bootstrap ready)).delivered ≡ "u1" ∷ "u2" ∷ []
unfolding run step published bootstrap subscribe publish advance_bus settle Queue.empty
    Queue.enqueue Queue.dequeue wire message_codec response_codec Distributor.subscribe
    Distributor.publish Distributor.channel Distributor.listener_count listeners Queue.queue_size
run-calls = refl

run_serial_example :
    (length (run wire calls (bootstrap ready)).running ≤ 1)
    × (waiting : List (Message ℕ)) × ((run wire calls (bootstrap ready)).delivered ++ waiting
        ≡ published wire calls (bootstrap ready))
unfolding subscribe
run_serial_example = run_serial wire wire-WireLaws ready ready-IsWired refl refl calls calls-AreNew

run_delivers_example :
    ((settle_all wire (2 ∷ []) (run wire calls (bootstrap ready))).status ≡ idle)
    × ((settle_all wire (2 ∷ []) (run wire calls (bootstrap ready))).delivered
        ≡ published wire calls (bootstrap ready))
unfolding run step published bootstrap subscribe publish advance_bus settle Queue.empty
    Queue.enqueue Queue.dequeue wire message_codec response_codec Distributor.subscribe
    Distributor.publish Distributor.channel Distributor.listener_count listeners Queue.queue_size
    backlog
run_delivers_example =
    run_delivers wire wire-WireLaws ready ready-IsWired refl refl calls (2 ∷ []) calls-AreNew
      (omega arith)

abbrev later : List (Call ℕ ℕ)
later = publishes "q2" (event "u2" 7) ∷ []

reject_stalls_example :
    (run wire [] (reject (run wire calls (bootstrap ready)))).delivered
    ≡ (run wire calls (bootstrap ready)).delivered
unfolding run step published bootstrap subscribe publish advance_bus settle Queue.empty
    Queue.enqueue Queue.dequeue wire message_codec response_codec Distributor.subscribe
    Distributor.publish Distributor.channel Distributor.listener_count listeners Queue.queue_size
reject_stalls_example =
    reject_stalls wire calls [] ready (record (event "u2" 7) { routing_key = some "n" })
      wire-WireLaws ready-IsWired refl refl calls-AreNew refl tt
