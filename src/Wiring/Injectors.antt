-- ===== src/Wiring/Injectors.antt =====
-- The injectors: those inside `forRootAsync` of moirae/core/lib/moirae.module.ts, and injector.ts of
-- moirae/redis/lib, moirae/rabbitmq/lib and moirae/typeorm/lib.
use moirae.Base.{Bool, if◌then◌else◌, Option, none, some, [], ◌∷◌, ◌++◌}
use moirae.Rabbit.Publisher.{Role, is_event}
use moirae.Wiring.Defs.{
  Injector, class_provider, use_class, use_factory, generate_distributor, of_class, of_role,
  cache_provider, event_pubsub_engine, event_source,
}

abbrev pub memory_cache_injector : Injector
memory_cache_injector _ = record {
  exports = [];
  providers = record { provide = cache_provider; supply = use_class "MemoryCache" } ∷ [];
}

abbrev pub memory_publisher_injector : Injector
memory_publisher_injector token = record {
  exports = [];
  providers =
      record { provide = of_role token; supply = use_class "MemoryPublisher" }
      ∷ record { provide = event_pubsub_engine; supply = use_factory generate_distributor }
      ∷ [];
}

abbrev pub memory_store_injector : Injector
memory_store_injector _ = record {
  exports = [];
  providers = record { provide = event_source; supply = use_class "MemoryStore" } ∷ [];
}

abbrev pub inject_redis : Injector
inject_redis _ = record {
  exports = of_class "RedisConnection" ∷ [];
  providers =
      record { provide = cache_provider; supply = use_class "RedisCache" }
      ∷ class_provider "RedisConnection"
      ∷ [];
}

-- `token === EVENT_PUBLISHER`
abbrev pub for_events : Option Role → Bool
for_events none = Bool.false
for_events (some r) = is_event r

abbrev pub inject_rabbitmq_publisher : Injector
inject_rabbitmq_publisher token = record {
  exports = of_class "RabbitMQConnection" ∷ [];
  providers =
      (if for_events token
        then record { provide = event_pubsub_engine; supply = use_class "RabbitPubSubEngine" } ∷ []
        else [])
      ++ class_provider "RabbitMQConnection"
        ∷ record { provide = of_role token; supply = use_class "RabbitMQPublisher" }
        ∷ [];
}

abbrev pub inject_typeorm_cache : Injector
inject_typeorm_cache _ = record {
  exports = [];
  providers = record { provide = cache_provider; supply = use_class "TypeORMCache" } ∷ [];
}

abbrev pub inject_typeorm_store : Injector
inject_typeorm_store _ = record {
  exports = [];
  providers = record { provide = event_source; supply = use_class "TypeORMStore" } ∷ [];
}
