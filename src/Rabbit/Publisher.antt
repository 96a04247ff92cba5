-- ===== src/Rabbit/Publisher.antt =====
-- moirae/rabbitmq/lib/publishers/rabbitmq.publisher.ts with the parts of base.publisher.ts that it calls.
-- As in the memory publisher, a worker call that starts is among the running ones until it settles.
use Prim.Native.String.{◌++◌}
use mathlib.Core.List.{◌++◌ as append}
use moirae.Base.{
  ℕ, String, ◌==◌, ◌===◌, ◌||◌, if◌then◌else◌, Bool, true, false, not, Option, none, some, List, [],
  ◌∷◌, map, select,
}
use moirae.Base.Dict.{Dict}
use moirae.Failure.{Result, ok, err, type_error}
use moirae.Message.{Message}
use moirae.AsyncMap.{AsyncMap}
use moirae.AsyncMap
use moirae.Observable.Emitter.{Emitter, member}
use moirae.Observable.Distributor.{Distributor, listener_count}
use moirae.Observable.Distributor
use moirae.Publisher.{EsState, idle, is_idle, Response, Wire}
use moirae.Rabbit.Channel.{Delivery, ChannelCall, ack, reject, publish}

pub data Role : Type 0 where
  command_publisher event_publisher query_publisher : Role

abbrev pub printed : Role → String
printed command_publisher = "__command_publisher__"
printed event_publisher = "__event_publisher__"
printed query_publisher = "__query_publisher__"

abbrev pub is_event : Role → Bool
is_event event_publisher = true
is_event _ = false

abbrev pub is_query : Role → Bool
is_query query_publisher = true
is_query _ = false

pub record WorkQueue : Type 0 where
  pub consumer_tag : Option String
  pub queue_name : String

pub record RabbitPublisher (D R : Type 0) : Type 0 where
  pub role : Role
  pub node_id : String
  pub namespace_root : String
  pub domains : List String
  pub status : EsState
  pub distributor : Distributor
  pub ee : Emitter
  pub workers : List ℕ
  pub running : List (Message D)
  pub response_map : AsyncMap (Response R)
  pub active_inbound : AsyncMap Delivery
  pub work_queues : Dict WorkQueue
  -- whether there is a response channel, and its consumer
  pub response_channel : Bool
  pub response_consumer : Option String
  -- what the channels were given, oldest first
  pub calls : List ChannelCall

module _ {D R : Type 0} where
  unfoldable pub generate_work_queue : String → RabbitPublisher D R → String
  generate_work_queue domain p =
      p.namespace_root ++ ("-work-" ++ (printed p.role ++ ("-" ++ domain)))

  abbrev pub response_exchange : RabbitPublisher D R → String
  response_exchange p = p.namespace_root ++ ("-responseExchange-" ++ printed p.role)

  abbrev pub response_queue : RabbitPublisher D R → String
  response_queue p = p.namespace_root ++ ("-responses-" ++ (printed p.role ++ ("-" ++ p.node_id)))

  abbrev pub work_exchange : RabbitPublisher D R → String
  work_exchange p = p.namespace_root ++ ("-workExchange-" ++ printed p.role)

  abbrev pub called : List ChannelCall → RabbitPublisher D R → RabbitPublisher D R
  called cs p = record p { calls = append p.calls cs }

  unfoldable pub handle_acknowledge : Message D → RabbitPublisher D R → RabbitPublisher D R
  handle_acknowledge event p = elim (AsyncMap.lookup (λ m. true) event.uuid none p.active_inbound) [
    | none ↦ p
    | some msg ↦ record (called (ack msg.tag ∷ []) p) {
      active_inbound = AsyncMap.delete event.uuid p.active_inbound;
    }
  ]

  unfoldable pub acknowledge_event : Message D → RabbitPublisher D R → RabbitPublisher D R
  unfolding handle_acknowledge
  acknowledge_event event p = handle_acknowledge event (record p { status = idle })

  unfoldable pub distribute : Message D → RabbitPublisher D R → RabbitPublisher D R
  distribute event p = record p {
    running = append p.running (
        map (λ h. event)
          (select (λ h. member h p.workers) (Distributor.publish p.distributor p.ee)));
  }

  unfoldable pub handle_publish : String → String → RabbitPublisher D R → RabbitPublisher D R
  handle_publish event_string execution_domain =
      λ p. called (publish (work_exchange p) execution_domain event_string ∷ []) p

  -- There is a response channel only for queries.
  unfoldable pub handle_response :
      String → String → RabbitPublisher D R → Result (Unit {0}) × RabbitPublisher D R
  handle_response routing_key response_json p =
      if p.response_channel
      then (ok tt, called (publish (response_exchange p) routing_key response_json ∷ []) p)
      else (err type_error, p)

module _ {D R : Type 0} (wire : Wire D R) where
  -- The callback of a work queue. Nothing returns after the `reject`.
  unfoldable pub on_message : Option Delivery → RabbitPublisher D R → RabbitPublisher D R
  unfolding distribute
  on_message none p = p
  on_message (some msg) p =
      let busy = listener_count p.distributor == 0 || not (is_idle p.status) in
      let p₁ = called (if busy then reject msg.tag true ∷ [] else []) p in
      let event = wire.parse_event msg.content in
      distribute event
        (record p₁ { active_inbound = AsyncMap.set event.uuid msg p₁.active_inbound })

  -- The callback of the response queue.
  unfoldable pub on_response : Option Delivery → RabbitPublisher D R → RabbitPublisher D R
  on_response none p = p
  on_response (some msg) p =
      let res = wire.parse_response msg.content in
      called (ack msg.tag ∷ [])
        (record p { response_map = AsyncMap.set res.response_key res p.response_map })

  unfoldable pub answer :
      Message D → R → RabbitPublisher D R → Result (Unit {0}) × RabbitPublisher D R
  unfolding handle_response
  answer event res p = elim event.response_key [
    | none ↦ (ok tt, p)
    | some key ↦ elim event.routing_key [
      | none ↦ (ok tt, p)
      | some node ↦
          if event.disable_response || (key === "" || node === "")
          then (ok tt, p)
          else handle_response node
              (wire.serialize_response
                (record { payload = res; response_key = key; routing_key = node }))
              p
    ]
  ]

  -- `subscribe` of `BasePublisher` behind the `await`: the oldest running call returns.
  unfoldable pub settle : R → RabbitPublisher D R → Result (Unit {0}) × RabbitPublisher D R
  unfolding answer acknowledge_event
  settle res p = elim p.running [
    | [] ↦ (ok tt, p)
    | event ∷ rest ↦
        let (r, q) = answer event res (record p { running = rest }) in
        elim r [ err e ↦ (err e, q) | ok _ ↦ (ok tt, acknowledge_event event q) ]
  ]
