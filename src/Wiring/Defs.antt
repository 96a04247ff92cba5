-- ===== src/Wiring/Defs.antt =====
-- What Nest is told: the tokens of moirae/core/lib/moirae.constants.ts, the providers of a module and
-- what an injector returns (interfaces/injector.interface.ts). A class is known by its name, and as
-- a token it is never a text. How Nest resolves a token is a parameter.
use moirae.Base.{
  String, ◌===◌, Bool, true, false, if◌then◌else◌, Option, none, some, List, [], ◌∷◌, ◌++◌, ◌≡◌,
}
use moirae.Rabbit.Publisher.{Role}
use moirae.Rabbit.Publisher

pub data Token : Type 0 where
  text : String → Token
  of_class : String → Token
  -- `provide: undefined`
  absent : Token

abbrev pub same : Token → Token → Bool
same (text a) (text b) = a === b
same (of_class a) (of_class b) = a === b
same absent absent = true
same _ _ = false

abbrev pub cache_options : Token
cache_options = text "__cache-options__"

abbrev pub cache_provider : Token
cache_provider = text "__cache-provider__"

abbrev pub domain_store : Token
domain_store = text "__domain_store__"

abbrev pub event_pubsub_engine : Token
event_pubsub_engine = text "__event-pubsub-engine__"

abbrev pub event_source : Token
event_source = text "__event_source__"

abbrev pub publisher_options : Token
publisher_options = text "__publisher-options__"

-- The token of a publisher; an injector may be called with none.
abbrev pub of_role : Option Role → Token
of_role none = absent
of_role (some r) = text (Publisher.printed r)

-- `+text`
pub data Number : Type 0 where
  of_text : Option String → Number

pub record Amqplib : Type 0 where
  pub hostname : Option String
  pub password : Option String
  pub port : Number
  pub username : Option String

-- What the configuration of one part says beside its injector.
pub record Settings : Type 0 where
  pub type : String
  pub clear : Option Bool
  pub namespace_root : Option String
  -- the host and the port of `redis.socket`
  pub socket : Option (String × String)
  pub amqplib : Option Amqplib

pub record PublisherSettings : Type 0 where
  pub command : Settings
  pub event : Settings
  pub query : Settings
  pub node_id : Option String
  pub domain : Option String

pub data Value : Type 0 where
  cache_settings : Settings → Value
  publisher_settings : PublisherSettings → Value

pub data Factory : Type 0 where
  -- `factory.generateDistributor(randomUUID())`
  generate_distributor : Factory
  -- `store.add(...domains)`
  add_domains : List String → Factory

pub data Supply : Type 0 where
  use_class : String → Supply
  use_value : Value → Supply
  use_factory : Factory → Supply

pub record Provider : Type 0 where
  pub provide : Token
  pub supply : Supply

-- A class given as a provider.
abbrev pub class_provider : String → Provider
class_provider name = record { provide = of_class name; supply = use_class name }

pub record Injected : Type 0 where
  pub exports : List Token
  pub providers : List Provider

abbrev pub Injector : Type 0
Injector = Option Role → Injected

-- What Nest finds for a token among the providers of one module: of two with one token the later.
pub record Nest : Type 0 where
  pub resolve : List Provider → Token → Option Supply
  pub resolve-nil : (t : Token) → resolve [] t ≡ none
  pub resolve-snoc :
      (ps : List Provider) (p : Provider) (t : Token)
      → resolve (ps ++ p ∷ []) t ≡ (if same p.provide t then some p.supply else resolve ps t)
