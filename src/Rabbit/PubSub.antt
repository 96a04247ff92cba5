-- ===== src/Rabbit/PubSub.antt =====
-- moirae/rabbitmq/lib/providers/rabbit-pubsub.engine.ts, over the calls on its channel. `tag` is the
-- consumer tag that the broker gives.
use Prim.Native.String.{◌++◌}
use mathlib.Core.List.{◌++◌ as append}
use moirae.Base.{ℕ, String, true, Option, none, some, List, [], ◌∷◌, map, ◌≡◌, refl, ap}
use moirae.Message.{Message}
use moirae.Observable.Emitter.{Emitter}
use moirae.Observable.Distributor.{Distributor}
use moirae.Observable.Distributor
use moirae.Publisher.{Wire}
use moirae.Publisher.Order.{WireLaws}
use moirae.Rabbit.Channel.{
  Delivery, ChannelCall, create_channel, assert_exchange, assert_queue, bind_queue, consume, cancel,
  close, ack, publish,
}

pub record PubSubEngine (D : Type 0) : Type 0 where
  pub pub_exchange : String
  pub sub_queue : String
  pub distributor : Distributor
  pub ee : Emitter
  pub pub_consumer : Option String
  -- the calls of the listeners, oldest first
  pub heard : List (ℕ × Message D)
  pub calls : List ChannelCall

module _ {D : Type 0} where
  unfoldable pub construct : String → String → Distributor → Emitter → PubSubEngine D
  construct namespace_root node_id distributor ee = record {
    pub_exchange = namespace_root ++ "-pubsub";
    sub_queue = namespace_root ++ ("-subqueue-" ++ node_id);
    distributor = distributor;
    ee = ee;
    pub_consumer = none;
    heard = [];
    calls = [];
  }

  unfoldable pub bootstrap : (String → String) → PubSubEngine D → PubSubEngine D
  bootstrap tag e = record e {
    pub_consumer = some (tag e.sub_queue);
    calls = append e.calls (
        create_channel
        ∷ assert_exchange e.pub_exchange "fanout"
        ∷ assert_queue e.sub_queue true
        ∷ bind_queue e.sub_queue e.pub_exchange ""
        ∷ consume e.sub_queue
        ∷ []);
  }

  unfoldable pub shutdown : PubSubEngine D → PubSubEngine D
  shutdown e = record e { calls = append e.calls (cancel e.pub_consumer ∷ close ∷ []) }

  unfoldable pub subscribe : String → ℕ → PubSubEngine D → PubSubEngine D
  subscribe key handler e =
      let (d, ee) = Distributor.subscribe key handler e.distributor e.ee in
      record e { distributor = d; ee = ee }

  unfoldable pub unsubscribe : String → PubSubEngine D → PubSubEngine D
  unsubscribe key e =
      let (d, ee) = Distributor.unsubscribe key e.distributor e.ee in
      record e { distributor = d; ee = ee }

module _ {D R : Type 0} (wire : Wire D R) where
  unfoldable pub publish_event : Message D → PubSubEngine D → PubSubEngine D
  publish_event event e = record e {
    calls = append e.calls (publish e.pub_exchange "" (wire.serialize_event event) ∷ []);
  }

  -- The callback of the queue.
  unfoldable pub on_message : Option Delivery → PubSubEngine D → PubSubEngine D
  on_message none e = e
  on_message (some msg) e =
      let event = wire.parse_event msg.content in
      record e {
        heard = append e.heard (map (λ h. (h, event)) (Distributor.publish e.distributor e.ee));
        calls = append e.calls (ack msg.tag ∷ []);
      }

  -- Two nodes of one namespace: what one publishes goes to the exchange to which the other has bound its
  -- queue, and a delivery of it there reaches each listener of the other once, as the same event, and is
  -- acknowledged once.
  pub on_message-publish_event :
      (namespace_root node node' : String) (d d' : Distributor) (ee ee' : Emitter)
      (tag : String → String) (n : ℕ) (event : Message D)
      → WireLaws wire
      → let a = publish_event event (construct namespace_root node d ee) in
        let b = bootstrap tag (construct namespace_root node' d' ee') in
        let c = on_message (some (record { tag = n; content = wire.serialize_event event })) b in
        (a.calls ≡ publish b.pub_exchange "" (wire.serialize_event event) ∷ [])
        × (c.heard ≡ map (λ h. (h, event)) (Distributor.publish d' ee'))
        × (c.calls ≡ append b.calls (ack n ∷ []))
  unfolding construct bootstrap publish_event on_message
  on_message-publish_event namespace_root node node' d d' ee ee' tag n event laws = (
    refl,
    ap (λ e. map (λ h. (h, e)) (Distributor.publish d' ee')) (laws.parse-serialize event),
    refl,
  )
