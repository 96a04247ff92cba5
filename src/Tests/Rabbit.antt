-- ===== src/Tests/Rabbit.antt =====
-- The RabbitMQ connection and publisher on small states.
use Prim.Native.Nat.{◌^◌}
use moirae.Base.{ℕ, suc, ◌+◌, String, true, false, none, some, List, [], ◌∷◌, ◌≡◌, refl}
use moirae.Failure.{ok}
use moirae.Message.{Message}
use moirae.AsyncMap
use moirae.Observable.Distributor
use moirae.Observable.Emitter.{listeners}
use moirae.Observable.Messenger.{Messenger}
use moirae.Observable.Messenger
use moirae.Publisher.{idle, shutting_down}
use moirae.Rabbit.Connection.{
  construct, open_connection, on_application_shutdown, close_event, closings, reconnects,
  closings-doubles, shutdown-reopens,
}
use moirae.Rabbit.Channel.{Delivery, ack, reject}
use moirae.Rabbit.Publisher.{
  RabbitPublisher, command_publisher, on_message, settle, generate_work_queue, work_exchange,
}
use moirae.Rabbit.Bootstrap.{handle_bootstrap}
use moirae.Rabbit.Delivery.{on_message-settle}
use moirae.Rabbit.Routing.{bound, handle_bootstrap-bound}
use moirae.Tests.Sample.{wire, message_codec, no_responses}

abbrev draw : ℕ → String
draw n = "c"

abbrev messenger : Messenger
messenger = record { ee = []; subscriptions = [] }

closings-doubles_example :
    let c = closings 1 draw 3 (open_connection 1 draw (construct messenger)) in
    (c.opened ≡ 2 ^ 3) × (reconnects 1 draw c ≡ 2 ^ 3)
unfolding construct Messenger.publish listeners
closings-doubles_example = closings-doubles 1 draw 3 messenger refl

shutdown-reopens_example :
    let (r, c') = on_application_shutdown 1 draw (open_connection 1 draw (construct messenger)) in
    (r ≡ ok tt)
    × ((close_event 1 draw none c').opened
        ≡ suc (construct messenger).opened + reconnects 1 draw (construct messenger))
unfolding construct
shutdown-reopens_example = shutdown-reopens 1 draw (construct messenger) refl

abbrev publisher : RabbitPublisher ℕ ℕ
publisher = record {
  role = command_publisher;
  node_id = "n";
  namespace_root = "m";
  domains = "accounts" ∷ "orders" ∷ [];
  status = shutting_down;
  distributor = record { uuid = "d"; subscriptions = ("k", 1) ∷ [] };
  ee = ("d:__dist-key__", 1) ∷ [];
  workers = 1 ∷ [];
  running = [];
  response_map = no_responses;
  active_inbound = record {
    map = [];
    distributor = record { uuid = "a"; subscriptions = [] };
    ee = [];
    waiting = [];
    resolved = [];
  };
  work_queues = [];
  response_channel = false;
  response_consumer = none;
  calls = [];
}

abbrev event : Message ℕ
event = record {
  name = "deposit";
  uuid = "u1";
  stream_id = some "s";
  correlation_id = none;
  metadata = none;
  execution_domain = none;
  response_key = none;
  routing_key = some "n";
  disable_response = false;
  timestamp = 5;
  payload = 3;
}

abbrev delivery : Delivery
delivery = record { tag = 7; content = wire.serialize_event event }

on_message-settle_example :
    let e = wire.parse_event delivery.content in
    let p₁ = on_message wire (some delivery) publisher in
    let (r, p₂) = settle wire 4 p₁ in
    (p₁.running ≡ e ∷ [])
    × (r ≡ ok tt)
    × (p₂.status ≡ idle)
    × (p₂.running ≡ [])
    × (AsyncMap.has e.uuid p₂.active_inbound ≡ false)
    × (p₂.calls ≡ reject 7 true ∷ ack 7 ∷ [])
unfolding wire message_codec Distributor.listener_count Distributor.publish Distributor.channel
    listeners
on_message-settle_example = on_message-settle wire delivery 4 1 publisher refl refl refl refl

abbrev name_of : String → String
name_of queue = queue

abbrev digest : List String → String
digest ds = "digest"

handle_bootstrap-bound_example :
    (bound (work_exchange publisher) "orders" (handle_bootstrap digest name_of publisher).calls
      ≡ generate_work_queue "orders" publisher ∷ [])
    × ((j : String)
        → generate_work_queue j publisher ≡ generate_work_queue "orders" publisher
        → j ≡ "orders")
handle_bootstrap-bound_example =
    handle_bootstrap-bound digest name_of "orders" publisher refl refl (refl, (refl, tt))
