-- ===== src/Tests/Wiring.antt =====
-- The demo application as some environments put it together.
use moirae.Base.{String, none, some, List, [], ◌∷◌, ◌++◌, ◌≡◌, refl, if◌then◌else◌, arith}
use moirae.Registry.Storage.{Constructor}
use moirae.Wiring.Defs.{
  Token, same, Provider, Nest, use_class, use_factory, generate_distributor, event_pubsub_engine,
}
use moirae.Wiring.Root.{MoiraeConfig, for_root_async, memory_config, default_publisher}
use moirae.Wiring.Injectors.{inject_rabbitmq_publisher}
use moirae.Wiring.Environment.{Environment, moirae_config_generator}
use moirae.Wiring.Engine.{found, found-append, in_memory, over_rabbitmq, for_root-engine}
use moirae.Wiring.Choice.{for_root-choice}

found-snoc :
    (ps : List Provider) (p : Provider) (t : Token)
    → found (ps ++ p ∷ []) t ≡ (if same p.provide t then some p.supply else found ps t)
found-snoc ps p t = ground (arith, found-append ps (p ∷ []) t)

abbrev nest : Nest
nest = record { resolve = found; resolve-nil = λ t. refl; resolve-snoc = found-snoc }

abbrev env : Environment
env = record {
  cache_type = some "redis";
  pub_type = some "rabbitmq";
  store_type = some "typeorm";
  node_env = none;
  rabbit_mq_host = some "localhost";
  rabbit_mq_pass = none;
  rabbit_mq_port = some "5672";
  rabbit_mq_user = none;
}

abbrev constructor : String → Constructor String
constructor name = record { name = name; class = name }

for_root-choice_example :
    let config =
      moirae_config_generator
        (constructor "InternalServerErrorException")
        (constructor "NotFoundException")
        "node"
        env in
    nest.resolve (for_root_async config []).0.providers event_pubsub_engine
    ≡ some (use_class "RabbitPubSubEngine")
for_root-choice_example =
    (for_root-choice (constructor "InternalServerErrorException") (constructor "NotFoundException")
      "node" nest env []).2

-- Events over RabbitMQ, commands and queries in memory.
abbrev mixed : MoiraeConfig String String
mixed = record {
  cache = none;
  external_types = none;
  publisher = some (record default_publisher { event = memory_config inject_rabbitmq_publisher });
  sagas = none;
  store = none;
  imports = none;
}

for_root-engine_example :
    nest.resolve (for_root_async mixed []).0.providers event_pubsub_engine
    ≡ some (use_factory generate_distributor)
for_root-engine_example = for_root-engine mixed nest over_rabbitmq in_memory [] refl refl refl
