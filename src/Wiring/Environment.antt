-- ===== src/Wiring/Environment.antt =====
-- demo/e2e-testing/setup/moirae-config-generator.ts: the configuration of the demo application, from the
-- variables of its environment. A missing injector is the default of `forRootAsync`.
use moirae.Base.{String, ◌===◌, Bool, false, if◌then◌else◌, Option, none, some, List, [], ◌∷◌, ◌++◌}
use moirae.Registry.Storage.{Constructor}
use moirae.Wiring.Defs.{of_text}
use moirae.Wiring.Injectors.{
  inject_redis, inject_rabbitmq_publisher, inject_typeorm_cache, inject_typeorm_store,
}
use moirae.Wiring.Root.{Config, PublisherConfig, MoiraeConfig, memory_settings}

-- `process.env`
pub record Environment : Type 0 where
  pub cache_type : Option String
  pub pub_type : Option String
  pub store_type : Option String
  pub node_env : Option String
  pub rabbit_mq_host : Option String
  pub rabbit_mq_pass : Option String
  pub rabbit_mq_port : Option String
  pub rabbit_mq_user : Option String

abbrev pub is : Option String → String → Bool
is none s = false
is (some v) s = v === s

-- `TypeOrmModule.forFeature(entities)`
pub data Import : Type 0 where
  type_orm_feature : List String → Import

abbrev memory : Config
memory = record { injector = none; settings = memory_settings }

unfoldable pub cache_config : Environment → Config
cache_config env =
    if is env.cache_type "redis"
    then record {
      injector = some inject_redis;
      settings = record {
        type = "redis";
        clear = none;
        namespace_root = some "__demo-app__";
        socket = some ("localhost", "6379");
        amqplib = none;
      };
    }
    else if is env.cache_type "typeorm"
    then record {
      injector = some inject_typeorm_cache;
      settings = record memory_settings { type = "typeorm" };
    }
    else memory

abbrev cache_entities : List String
cache_entities = "KeyValue" ∷ "SetRoot" ∷ "SetValue" ∷ []

-- The entities that the `switch` on the cache and the one on the store push.
unfoldable pub typeorm_imports : Environment → List String
typeorm_imports env =
    (if is env.cache_type "redis"
      then []
      else if is env.cache_type "typeorm"
      then cache_entities
      else [])
    ++ (if is env.store_type "typeorm" then "EventStore" ∷ [] else [])

-- `config.cache.clear = process.env.NODE_ENV === "test"`
unfoldable pub cleared : Environment → Config → Config
cleared env c = record c { settings = record c.settings { clear = some (is env.node_env "test") } }

unfoldable pub rmq_config : Environment → Config
rmq_config env = record {
  injector = some inject_rabbitmq_publisher;
  settings = record {
    type = "rabbitmq";
    clear = none;
    namespace_root = some "__demo-app__";
    socket = none;
    amqplib = some (record {
      hostname = env.rabbit_mq_host;
      password = env.rabbit_mq_pass;
      port = of_text env.rabbit_mq_port;
      username = env.rabbit_mq_user;
    });
  };
}

unfoldable pub publisher_config : String → Environment → PublisherConfig
unfolding rmq_config
publisher_config node env =
    let config : PublisherConfig = record {
      command = memory;
      event = memory;
      query = memory;
      node_id = some node;
      domain = none;
    } in
    if is env.pub_type "rabbitmq"
    then record config { command = rmq_config env; event = rmq_config env; query = rmq_config env }
    else config

unfoldable pub store_config : Environment → Config
store_config env =
    if is env.store_type "typeorm"
    then record {
      injector = some inject_typeorm_store;
      settings = record memory_settings { type = "typeorm" };
    }
    else memory

-- `if (typeormImports.length > 0) config.imports.push(…)`
abbrev pub feature_imports : List String → List Import
feature_imports [] = []
feature_imports (e ∷ es) = type_orm_feature (e ∷ es) ∷ []

-- The two exceptions are classes of Nest.
unfoldable pub moirae_config_generator :
    {C : Type 0} → Constructor C → Constructor C → String → Environment → MoiraeConfig C Import
unfolding cache_config typeorm_imports cleared publisher_config store_config
moirae_config_generator internal_error not_found node env = record {
  cache = some (cleared env (cache_config env));
  external_types = some (internal_error ∷ not_found ∷ []);
  publisher = some (publisher_config node env);
  sagas = none;
  store = some (store_config env);
  imports = some (feature_imports (typeorm_imports env));
}
