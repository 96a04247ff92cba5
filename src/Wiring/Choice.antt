-- ===== src/Wiring/Choice.antt =====
-- What the demo application runs on: demo/e2e-testing/setup/moirae-config-generator.ts through
-- `forRootAsync` of moirae/core/lib/moirae.module.ts and the injectors of the plugins.
use moirae.Base.{
  String, ◌===◌, ◌≡◌, refl, Bool, true, false, if◌then◌else◌, Option, none, some, List, [], ◌∷◌,
  ◌∙◌, ap, arith,
}
use moirae.Base.Sets.{contains}
use moirae.Registry.Storage.{Constructor, ConstructorStorage}
use moirae.Rabbit.Publisher.{Role, command_publisher, event_publisher, query_publisher}
use moirae.Wiring.Defs.{
  of_role, Supply, use_class, use_value, use_factory, generate_distributor, Provider, Nest,
  cache_provider, event_pubsub_engine, event_source, cache_options, cache_settings,
  publisher_options, publisher_settings,
}
use moirae.Wiring.Root.{for_root_async, root_providers}
use moirae.Wiring.Environment.{
  Environment, is, Import, type_orm_feature, moirae_config_generator, cache_config, cleared,
  publisher_config, rmq_config, store_config, typeorm_imports, feature_imports,
}
use moirae.Wiring.Engine.{found, resolve-eq-found}

-- Whether an entity is among the imports.
abbrev imported : String → Option (List Import) → Bool
imported entity none = false
imported entity (some []) = false
imported entity (some (type_orm_feature es ∷ is)) =
    if contains entity es then true else imported entity (some is)

abbrev cache_class : Environment → String
cache_class env =
    if is env.cache_type "redis"
    then "RedisCache"
    else if is env.cache_type "typeorm"
    then "TypeORMCache"
    else "MemoryCache"

abbrev store_class : Environment → String
store_class env = if is env.store_type "typeorm" then "TypeORMStore" else "MemoryStore"

abbrev publisher_class : Environment → String
publisher_class env = if is env.pub_type "rabbitmq" then "RabbitMQPublisher" else "MemoryPublisher"

abbrev engine_supply : Environment → Supply
engine_supply env =
    if is env.pub_type "rabbitmq"
    then use_class "RabbitPubSubEngine"
    else use_factory generate_distributor

-- What the options that a token gives say.
abbrev clears : Option Supply → Option Bool
clears (some (use_value (cache_settings c))) = c.clear
clears _ = none

abbrev node_of : Option Supply → Option String
node_of (some (use_value (publisher_settings p))) = p.node_id
node_of _ = none

module _ {C : Type 0} (internal_error not_found : Constructor C) (node : String) where
  -- What is found in the module, for each way that the tests on the environment can go.
  found_choice :
      (env : Environment) (redis typeorm rabbit stored : Bool)
      → is env.cache_type "redis" ≡ redis
      → is env.cache_type "typeorm" ≡ typeorm
      → is env.pub_type "rabbitmq" ≡ rabbit
      → is env.store_type "typeorm" ≡ stored
      → let ps = root_providers (moirae_config_generator internal_error not_found node env) in
        (found ps cache_provider ≡ some (use_class (cache_class env)))
        × (found ps (of_role (some command_publisher)) ≡ some (use_class (publisher_class env)))
        × (found ps (of_role (some event_publisher)) ≡ some (use_class (publisher_class env)))
        × (found ps (of_role (some query_publisher)) ≡ some (use_class (publisher_class env)))
        × (found ps event_pubsub_engine ≡ some (engine_supply env))
        × (found ps event_source ≡ some (use_class (store_class env)))
  unfolding root_providers moirae_config_generator cache_config cleared publisher_config rmq_config
      store_config
  found_choice env true t true true hr ht hp hs =
      rw (hr, hp, hs) (refl, refl, refl, refl, refl, refl)
  found_choice env false true true true hr ht hp hs =
      rw (hr, ht, hp, hs) (refl, refl, refl, refl, refl, refl)
  found_choice env r t p s hr ht hp hs = ground arith

  each :
      (ps : List Provider) {x : Option Supply} (role : Role)
      → (found ps (of_role (some command_publisher)) ≡ x)
        × (found ps (of_role (some event_publisher)) ≡ x)
        × (found ps (of_role (some query_publisher)) ≡ x)
      → found ps (of_role (some role)) ≡ x
  each ps command_publisher h = h.0
  each ps event_publisher h = h.1
  each ps query_publisher h = h.2

  found_options :
      (env : Environment)
      → let ps = root_providers (moirae_config_generator internal_error not_found node env) in
        (clears (found ps cache_options) ≡ some (is env.node_env "test"))
        × (node_of (found ps publisher_options) ≡ some node)
  unfolding root_providers moirae_config_generator cache_config cleared publisher_config rmq_config
      store_config
  found_options env = ground arith

  imported_entities :
      (env : Environment) (redis typeorm stored : Bool)
      → is env.cache_type "redis" ≡ redis
      → is env.cache_type "typeorm" ≡ typeorm
      → is env.store_type "typeorm" ≡ stored
      → let imports = some (feature_imports (typeorm_imports env)) in
        (imported "KeyValue" imports ≡ cache_class env === "TypeORMCache")
        × (imported "SetRoot" imports ≡ cache_class env === "TypeORMCache")
        × (imported "SetValue" imports ≡ cache_class env === "TypeORMCache")
        × (imported "EventStore" imports ≡ store_class env === "TypeORMStore")
  unfolding typeorm_imports
  imported_entities env true t true hr ht hs = rw (hr, hs) (refl, refl, refl, refl)
  imported_entities env true t false hr ht hs = rw (hr, hs) (refl, refl, refl, refl)
  imported_entities env false true true hr ht hs = rw (hr, ht, hs) (refl, refl, refl, refl)
  imported_entities env false true false hr ht hs = rw (hr, ht, hs) (refl, refl, refl, refl)
  imported_entities env false false true hr ht hs = rw (hr, ht, hs) (refl, refl, refl, refl)
  imported_entities env false false false hr ht hs = rw (hr, ht, hs) (refl, refl, refl, refl)

  -- The environment chooses what the application runs on: in the module each token is resolved to the
  -- class of the kind that its variable names, and to the in-memory one for any other text or none; the
  -- three publishers are of one kind, and the engine of the events is of that kind too. An entity of
  -- typeorm is imported exactly where a class that reads it was chosen. The cache is cleared at the
  -- start in tests only, and the publishers have the id of the node.
  pub for_root-choice :
      (nest : Nest) (env : Environment) (storage : ConstructorStorage C)
      → let config = moirae_config_generator internal_error not_found node env in
        let m = (for_root_async config storage).0 in
        let resolved = nest.resolve m.providers in
        (resolved cache_provider ≡ some (use_class (cache_class env)))
        × ((role : Role) → resolved (of_role (some role)) ≡ some (use_class (publisher_class env)))
        × (resolved event_pubsub_engine ≡ some (engine_supply env))
        × (resolved event_source ≡ some (use_class (store_class env)))
        × (imported "KeyValue" m.imports ≡ cache_class env === "TypeORMCache")
        × (imported "SetRoot" m.imports ≡ cache_class env === "TypeORMCache")
        × (imported "SetValue" m.imports ≡ cache_class env === "TypeORMCache")
        × (imported "EventStore" m.imports ≡ store_class env === "TypeORMStore")
        × (clears (resolved cache_options) ≡ some (is env.node_env "test"))
        × (node_of (resolved publisher_options) ≡ some node)
  unfolding for_root_async moirae_config_generator
  for_root-choice nest env storage =
      let ps = root_providers (moirae_config_generator internal_error not_found node env) in
      let f = resolve-eq-found nest ps in
      let c =
        found_choice env (is env.cache_type "redis") (is env.cache_type "typeorm")
          (is env.pub_type "rabbitmq") (is env.store_type "typeorm") refl refl refl refl in
      let o = found_options env in
      let i =
        imported_entities env (is env.cache_type "redis") (is env.cache_type "typeorm")
          (is env.store_type "typeorm") refl refl refl in
      (
        f cache_provider ∙ c.0,
        λ role. f (of_role (some role)) ∙ each ps role (c.1, c.2, c.3),
        f event_pubsub_engine ∙ c.4,
        f event_source ∙ c.5,
        i.0,
        i.1,
        i.2,
        i.3,
        ap clears (f cache_options) ∙ o.0,
        ap node_of (f publisher_options) ∙ o.1,
      )
