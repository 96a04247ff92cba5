-- ===== src/Wiring/Root.antt =====
-- `forFeature` and `forRootAsync` of moirae/core/lib/moirae.module.ts. The settings that the options
-- tokens give stand without the injectors, which nothing reads there. `sha1` of object-hash is a
-- parameter, and `imports` are what the application imports, of any type.
use Prim.Native.String.{◌++◌ as concat}
use moirae.Base.{String, Option, none, some, List, [], ◌∷◌, ◌++◌}
use moirae.Registry.Storage.{Constructor, ConstructorStorage}
use moirae.Registry.Storage
use moirae.Rabbit.Publisher.{Role, command_publisher, event_publisher, query_publisher}
use moirae.Wiring.Defs.{
  Token, text, of_class, Provider, class_provider, use_class, use_value, use_factory, add_domains,
  Settings, PublisherSettings, cache_settings, publisher_settings, Injected, Injector,
  cache_options, domain_store, event_pubsub_engine, publisher_options,
}
use moirae.Wiring.Injectors.{
  memory_cache_injector, memory_publisher_injector, memory_store_injector,
}

pub record Config : Type 0 where
  pub injector : Option Injector
  pub settings : Settings

pub record PublisherConfig : Type 0 where
  pub command : Config
  pub event : Config
  pub query : Config
  pub node_id : Option String
  pub domain : Option String

pub record MoiraeConfig (C I : Type 0) : Type 0 where
  pub cache : Option Config
  pub external_types : Option (List (Constructor C))
  pub publisher : Option PublisherConfig
  pub sagas : Option (List Provider)
  pub store : Option Config
  pub imports : Option (List I)

pub record DynamicModule (I : Type 0) : Type 0 where
  pub imports : Option (List I)
  pub providers : List Provider
  pub exports : List Token

abbrev pub or_default {ℓ} : {A : Type ℓ} → Option A → A → A
or_default none d = d
or_default (some a) d = a

abbrev pub memory_settings : Settings
memory_settings = record {
  type = "memory";
  clear = none;
  namespace_root = none;
  socket = none;
  amqplib = none;
}

abbrev pub memory_config : Injector → Config
memory_config injector = record { injector = some injector; settings = memory_settings }

abbrev pub default_publisher : PublisherConfig
default_publisher = record {
  command = memory_config memory_publisher_injector;
  event = memory_config memory_publisher_injector;
  query = memory_config memory_publisher_injector;
  node_id = none;
  domain = some "default";
}

abbrev pub settings_of : PublisherConfig → PublisherSettings
settings_of p = record {
  command = p.command.settings;
  event = p.event.settings;
  query = p.query.settings;
  node_id = p.node_id;
  domain = p.domain;
}

-- `externalTypes.forEach((type) => ConstructorStorage.getInstance().set(type))`
abbrev pub register_types :
    {C : Type 0} → List (Constructor C) → ConstructorStorage C → ConstructorStorage C
register_types [] storage = storage
register_types (t ∷ ts) storage = register_types ts (Storage.set t storage)

abbrev pub services : List Provider
services =
    class_provider "AggregateFactory"
    ∷ class_provider "CommandBus"
    ∷ class_provider "EventBus"
    ∷ class_provider "Explorer"
    ∷ class_provider "MessengerService"
    ∷ class_provider "ObservableFactory"
    ∷ class_provider "QueryBus"
    ∷ class_provider "SagaManager"
    ∷ []

-- Which parts of the configuration an application is made of, with the defaults in.
abbrev pub cache_of : {C I : Type 0} → MoiraeConfig C I → Config
cache_of c = or_default c.cache (memory_config memory_cache_injector)

abbrev pub publisher_of : {C I : Type 0} → MoiraeConfig C I → PublisherConfig
publisher_of c = or_default c.publisher default_publisher

abbrev pub store_of : {C I : Type 0} → MoiraeConfig C I → Config
store_of c = or_default c.store (memory_config memory_store_injector)

abbrev pub injected_publisher : Config → Role → Injected
injected_publisher p role = or_default p.injector memory_publisher_injector (some role)

module _ {C I : Type 0} (config : MoiraeConfig C I) where
  abbrev pub cache_part : Injected
  cache_part = or_default (cache_of config).injector memory_cache_injector none

  abbrev pub store_part : Injected
  store_part = or_default (store_of config).injector memory_store_injector none

  abbrev pub command_part : Injected
  command_part = injected_publisher (publisher_of config).command command_publisher

  abbrev pub event_part : Injected
  event_part = injected_publisher (publisher_of config).event event_publisher

  abbrev pub query_part : Injected
  query_part = injected_publisher (publisher_of config).query query_publisher

  abbrev pub options : List Provider
  options =
      record {
        provide = cache_options;
        supply = use_value (cache_settings (cache_of config).settings);
      }
      ∷ record {
        provide = publisher_options;
        supply = use_value (publisher_settings (settings_of (publisher_of config)));
      }
      ∷ []

  unfoldable pub root_providers : List Provider
  root_providers =
      services
      ++ (options
          ++ (or_default config.sagas []
              ++ (cache_part.providers
                  ++ (command_part.providers
                      ++ (event_part.providers
                          ++ (query_part.providers
                              ++ (store_part.providers
                                  ++ record {
                                    provide = domain_store;
                                    supply = use_class "DomainStore";
                                  }
                                    ∷ [])))))))

  unfoldable pub root_exports : List Token
  root_exports =
      (of_class "AggregateFactory"
        ∷ of_class "CommandBus"
        ∷ of_class "EventBus"
        ∷ of_class "MessengerService"
        ∷ of_class "QueryBus"
        ∷ publisher_options
        ∷ event_pubsub_engine
        ∷ [])
      ++ (cache_part.exports
          ++ (command_part.exports
              ++ (event_part.exports
                  ++ (query_part.exports ++ (store_part.exports ++ domain_store ∷ [])))))

  -- The module, and the table of constructors with the external types.
  unfoldable pub for_root_async : ConstructorStorage C → DynamicModule I × ConstructorStorage C
  unfolding root_providers root_exports
  for_root_async storage = (
    record { imports = config.imports; providers = root_providers; exports = root_exports },
    register_types (or_default config.external_types []) storage,
  )

-- `forFeature`
unfoldable pub for_feature : (List String → String) → List String → List Provider
for_feature sha1 domains =
    record {
      provide = text (concat "DOMAIN_PROVIDER_" (sha1 domains));
      supply = use_factory (add_domains domains);
    }
    ∷ []
