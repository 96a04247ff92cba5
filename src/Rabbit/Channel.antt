-- ===== src/Rabbit/Channel.antt =====
-- The calls of moirae/rabbitmq on a channel of amqplib. A channel is a parameter of the plugin: what is
-- kept here is which calls it is given, in order, where each call returns at once. `consume` gives a
-- consumer tag, which the broker draws.
use moirae.Base.{ℕ, String, Bool, Option}

-- A delivery: the tag by which the broker knows it, and its content.
pub record Delivery : Type 0 where
  pub tag : ℕ
  pub content : String

pub data ChannelCall : Type 0 where
  create_channel : ChannelCall
  prefetch : ℕ → ChannelCall
  assert_exchange : String → String → ChannelCall
  -- with the option `exclusive`
  assert_queue : String → Bool → ChannelCall
  -- the queue, the exchange, the routing key
  bind_queue : String → String → String → ChannelCall
  unbind_queue : String → String → String → ChannelCall
  consume : String → ChannelCall
  cancel : Option String → ChannelCall
  close : ChannelCall
  ack : ℕ → ChannelCall
  -- with the option `requeue`
  reject : ℕ → Bool → ChannelCall
  -- the exchange, the routing key, the content
  publish : String → String → String → ChannelCall
