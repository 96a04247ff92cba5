-- ===== src/Publisher/Defs.antt =====
-- moirae/core/lib/classes/base.publisher.ts and publishers/memory.publisher.ts. The handlers run as
-- asynchronous functions: delivery starts one call for each worker, and when it settles is up to the
-- handler, so `settle` and `reject` are steps of their own.
use moirae.Base.{
  ℕ, String, ◌===◌, ◌==◌, if◌then◌else◌, Bool, true, false, not, ◌&&◌, ◌||◌, Option, none, some,
  List, [], ◌∷◌, ◌++◌, map, select, truthy,
}
use moirae.AsyncMap.{AsyncMap}
use moirae.AsyncMap
use moirae.Failure.{Result, ok, err, type_error}
use moirae.Message.{Message}
use moirae.Queue.{Queue, enqueue, dequeue, queue_size}
use moirae.Queue
use moirae.Observable.Emitter.{Emitter, member}
use moirae.Observable.Distributor.{Distributor, listener_count}
use moirae.Observable.Distributor

-- `enum ESState`
pub data EsState : Type 0 where
  not_ready preparing idle active shutting_down : EsState

abbrev pub is_idle : EsState → Bool
is_idle idle = true
is_idle _ = false

pub record Response (R : Type 0) : Type 0 where
  pub payload : R
  pub response_key : String
  pub routing_key : String

-- What goes over the wire: the texts that class-transformer and JSON make of events and responses.
pub record Wire (D R : Type 0) : Type 0 where
  pub serialize_event : Message D → String
  pub parse_event : String → Message D
  pub serialize_response : Response R → String
  pub parse_response : String → Response R

pub record Publisher (D R : Type 0) : Type 0 where
  pub node_id : String
  -- made by the bootstrap
  pub queue : Option (Queue String)
  pub status : EsState
  pub distributor : Distributor
  pub ee : Emitter
  -- the listeners that `subscribe` registered, as opposed to `listen`
  pub workers : List ℕ
  -- the calls of worker listeners that have not settled
  pub running : List (Message D)
  -- what was given to the distributor, oldest first
  pub delivered : List (Message D)
  pub response_map : AsyncMap (Response R)

module _ {D R : Type 0} where
  -- `_distributor.publish`: each worker among the listeners starts a call.
  unfoldable pub distribute : Message D → Publisher D R → Publisher D R
  distribute event p = record p {
    running =
        p.running
        ++ map (λ h. event)
            (select (λ h. member h p.workers) (Distributor.publish p.distributor p.ee));
    delivered = p.delivered ++ event ∷ [];
  }

  -- `event.$routingKey = this.publisherOptions.nodeId`
  unfoldable pub routed : Message D → Publisher D R → Message D
  routed event p = record event { routing_key = some p.node_id }

  abbrev pub with_queue : Queue String → Publisher D R → Publisher D R
  with_queue q p = record p { queue = some q }

  -- `onApplicationBootstrap` and `handleBootstrap`
  unfoldable pub bootstrap : Publisher D R → Publisher D R
  bootstrap p = record p { status = idle; queue = some Queue.empty }

module _ {D R : Type 0} (wire : Wire D R) where
  take_item : Option String → Queue String → Publisher D R → Publisher D R
  unfolding distribute
  take_item item q p =
      let next : Publisher D R = record p { queue = some q } in
      elim item [
        | none ↦ next
        | some text ↦
            if text === ""
            then next
            else distribute (wire.parse_event text) (record next { status = active })
      ]

  -- A method of an object that `bootstrap` has not made throws.
  unfoldable pub advance_bus : Publisher D R → Result (Unit {0}) × Publisher D R
  unfolding take_item
  advance_bus p =
      if listener_count p.distributor == 0 || not (is_idle p.status)
      then (ok tt, p)
      else (elim p.queue [
        | none ↦ (err type_error, p)
        | some q ↦ (ok tt, take_item (dequeue q).0 (dequeue q).1 p)
      ])

  -- `handlePublish`; `uuid` is the key that the queue draws.
  unfoldable pub handle_publish :
      String → String → Publisher D R → Result (Unit {0}) × Publisher D R
  unfolding advance_bus
  handle_publish uuid text p = elim p.queue [
    | none ↦ (err type_error, p)
    | some q ↦ elim (enqueue uuid text q).0 [
      | err e ↦ (err e, with_queue (enqueue uuid text q).1 p)
      | ok _ ↦
          if queue_size (enqueue uuid text q).1 == 1
          then advance_bus (with_queue (enqueue uuid text q).1 p)
          else (ok tt, with_queue (enqueue uuid text q).1 p)
    ]
  ]

  unfoldable pub publish : String → Message D → Publisher D R → Result (Unit {0}) × Publisher D R
  unfolding handle_publish routed
  publish uuid event p = handle_publish uuid (wire.serialize_event (routed event p)) p

  -- `acknowledgeEvent` with the `handleAcknowledge` of the memory publisher.
  unfoldable pub acknowledge_event : Publisher D R → Result (Unit {0}) × Publisher D R
  unfolding advance_bus
  acknowledge_event p = advance_bus (record p { status = idle })

  -- The `handleResponse` of the memory publisher.
  unfoldable pub handle_response : String → Publisher D R → Publisher D R
  handle_response text p =
      let res = wire.parse_response text in
      record p { response_map = AsyncMap.set res.response_key res p.response_map }

  abbrev text_or : Option String → String
  text_or none = ""
  text_or (some t) = t

  unfoldable pub respond : Message D → R → Publisher D R → Publisher D R
  unfolding handle_response
  respond event res p =
      if not event.disable_response && (truthy event.response_key && truthy event.routing_key)
      then handle_response
          (wire.serialize_response (record {
            payload = res;
            response_key = text_or event.response_key;
            routing_key = text_or event.routing_key;
          }))
          p
      else p

  -- The oldest running call of a worker returns `res`.
  unfoldable pub settle : R → Publisher D R → Result (Unit {0}) × Publisher D R
  unfolding respond acknowledge_event
  settle res p = elim p.running [
    | [] ↦ (ok tt, p)
    | event ∷ rest ↦ acknowledge_event (respond event res (record p { running = rest }))
  ]

module _ {D R : Type 0} where
  -- The oldest running call of a worker throws: what stands after `await handlerFn(evt)` is not run.
  unfoldable pub reject : Publisher D R → Publisher D R
  reject p = elim p.running [ [] ↦ p | event ∷ rest ↦ record p { running = rest } ]

  unfoldable pub listen : String → ℕ → Publisher D R → Publisher D R
  listen key handler p =
      let (d, ee) = Distributor.subscribe key handler p.distributor p.ee in
      record p { distributor = d; ee = ee }

  unfoldable pub subscribe : String → ℕ → Publisher D R → Publisher D R
  subscribe key handler p =
      let (d, ee) = Distributor.subscribe key handler p.distributor p.ee in
      record p { distributor = d; ee = ee; workers = handler ∷ p.workers }

  unfoldable pub unsubscribe : String → Publisher D R → Publisher D R
  unsubscribe key p =
      let (d, ee) = Distributor.unsubscribe key p.distributor p.ee in
      record p { distributor = d; ee = ee }

  -- `beforeApplicationShutdown` with the `handleShutdown` of the memory publisher.
  unfoldable pub shutdown : Publisher D R → Publisher D R
  shutdown p = record p { status = not_ready; distributor = Distributor.clear p.distributor }
