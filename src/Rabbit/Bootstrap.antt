-- ===== src/Rabbit/Bootstrap.antt =====
-- `handleBootstrap` and `handleShutdown` of moirae/rabbitmq/lib/publishers/rabbitmq.publisher.ts. `sha1` is
-- that of object-hash on the list of domains, and `tag` the consumer tag that the broker gives for a queue.
use Prim.Native.String.{◌++◌}
use mathlib.Core.List.{◌++◌ as append}
use moirae.Base.{String, true, false, if◌then◌else◌, Option, none, some, List, [], ◌∷◌}
use moirae.Base.Dict.{Dict, get, set}
use moirae.Rabbit.Channel.{
  ChannelCall, create_channel, prefetch, assert_exchange, assert_queue, bind_queue, unbind_queue,
  consume, cancel, close,
}
use moirae.Rabbit.Publisher.{
  RabbitPublisher, WorkQueue, is_event, is_query, generate_work_queue, response_exchange,
  response_queue, work_exchange, called,
}

-- What stands for the domains in the name of the one queue of events.
abbrev pub event_domain : (List String → String) → List String → String
event_domain sha1 domains =
    "events__" ++ (elim domains [ [] ↦ sha1 [] | d ∷ [] ↦ d | d ∷ e ∷ ds ↦ sha1 (d ∷ e ∷ ds) ])

abbrev pub cancels : Dict WorkQueue → List ChannelCall
cancels [] = []
cancels ((d, q) ∷ qs) = cancel q.consumer_tag ∷ cancels qs

module _ {D R : Type 0} where
  unfoldable pub open_responses : (String → String) → RabbitPublisher D R → RabbitPublisher D R
  open_responses tag p =
      if is_query p.role
      then record (called
          (create_channel
            ∷ assert_exchange (response_exchange p) "direct"
            ∷ assert_queue (response_queue p) true
            ∷ bind_queue (response_queue p) (response_exchange p) p.node_id
            ∷ consume (response_queue p)
            ∷ [])
          p) { response_channel = true; response_consumer = some (tag (response_queue p)) }
      else p

  unfoldable pub open_work : RabbitPublisher D R → RabbitPublisher D R
  open_work p =
      called
        (create_channel
          ∷ prefetch 1
          ∷ assert_exchange (work_exchange p) (if is_event p.role then "fanout" else "topic")
          ∷ [])
        p

  abbrev pub name_queues : List String → RabbitPublisher D R → RabbitPublisher D R
  name_queues [] p = p
  name_queues (d ∷ ds) p = name_queues ds (record p {
    work_queues =
        set d (record { consumer_tag = none; queue_name = generate_work_queue d p }) p.work_queues;
  })

  -- One round of the last loop.
  abbrev pub consume_queue :
      (String → String) → String → Option WorkQueue → RabbitPublisher D R → RabbitPublisher D R
  consume_queue tag d none p = p
  consume_queue tag d (some q) p =
      record (called
        (assert_queue q.queue_name false
          ∷ bind_queue q.queue_name (work_exchange p) d
          ∷ consume q.queue_name
          ∷ [])
        p) {
          work_queues = set d (record q { consumer_tag = some (tag q.queue_name) }) p.work_queues;
        }

  unfoldable pub consume_all :
      (String → String) → List String → RabbitPublisher D R → RabbitPublisher D R
  consume_all tag [] p = p
  consume_all tag (d ∷ ds) p = consume_all tag ds (consume_queue tag d (get d p.work_queues) p)

  unfoldable pub handle_bootstrap :
      (List String → String) → (String → String) → RabbitPublisher D R → RabbitPublisher D R
  unfolding open_responses open_work consume_all
  handle_bootstrap sha1 tag p =
      let q = open_work (open_responses tag p) in
      if is_event p.role
      then consume_all tag ("all" ∷ []) (record q {
        work_queues =
            set "all"
              (record {
                consumer_tag = none;
                queue_name = generate_work_queue (event_domain sha1 p.domains) p;
              })
              q.work_queues;
      })
      else consume_all tag p.domains (name_queues p.domains q)

  unfoldable pub handle_shutdown : RabbitPublisher D R → RabbitPublisher D R
  handle_shutdown p =
      called
        (append (cancels p.work_queues) (
          close
          ∷ (if p.response_channel
              then unbind_queue (response_queue p) (response_exchange p) p.node_id
                ∷ cancel p.response_consumer
                ∷ close
                ∷ []
              else [])))
        p
