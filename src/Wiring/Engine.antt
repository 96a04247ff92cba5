-- ===== src/Wiring/Engine.antt =====
-- What the tokens of the module of moirae/core/lib/moirae.module.ts are resolved to.
use mathlib.Core.List.{append-nil, append_assoc}
use moirae.Base.{
  if◌then◌else◌, Option, none, some, List, [], ◌∷◌, ◌++◌, ◌≡◌, refl, sym, ap, ◌∙◌, arith,
}
use moirae.Registry.Storage.{ConstructorStorage}
use moirae.Rabbit.Publisher.{event_publisher, query_publisher}
use moirae.Wiring.Defs.{
  Token, same, Supply, use_class, use_factory, generate_distributor, Provider, Nest, Injector,
  event_pubsub_engine, domain_store,
}
use moirae.Wiring.Injectors.{memory_publisher_injector, inject_rabbitmq_publisher}
use moirae.Wiring.Root.{
  MoiraeConfig, or_default, publisher_of, store_part, cache_part, command_part, event_part,
  query_part, services, options, root_providers, for_root_async,
}

abbrev pub later : Option Supply → Option Supply → Option Supply
later none earlier = earlier
later (some s) earlier = some s

-- The last provider with the token.
abbrev pub found : List Provider → Token → Option Supply
found [] t = none
found (p ∷ ps) t = later (found ps t) (if same p.provide t then some p.supply else none)

later_assoc : (a b c : Option Supply) → later a (later b c) ≡ later (later a b) c
later_assoc none b c = refl
later_assoc (some a) b c = refl

later-none : (a : Option Supply) → later a none ≡ a
later-none none = refl
later-none (some a) = refl

pub found-append :
    (ps qs : List Provider) (t : Token) → found (ps ++ qs) t ≡ later (found qs t) (found ps t)
found-append [] qs t = sym (later-none (found qs t))
found-append (p ∷ ps) qs t = ground (
  arith,
  found-append ps qs t,
  later_assoc (found qs t) (found ps t) (if same p.provide t then some p.supply else none),
)

module _ (nest : Nest) where
  resolve-append :
      (ps qs : List Provider) (t : Token)
      → nest.resolve (ps ++ qs) t ≡ later (found qs t) (nest.resolve ps t)
  resolve-append ps [] t = ap (λ (l : List Provider). nest.resolve l t) (append-nil ps)
  resolve-append ps (q ∷ qs) t =
      ap (λ (l : List Provider). nest.resolve l t) (sym (append_assoc ps (q ∷ []) qs))
      ∙ (resolve-append (ps ++ q ∷ []) qs t
          ∙ ground (
            arith,
            nest.resolve-snoc ps q t,
            later_assoc (found qs t) (if same q.provide t then some q.supply else none)
                (nest.resolve ps t),
          ))

  pub resolve-eq-found : (ps : List Provider) (t : Token) → nest.resolve ps t ≡ found ps t
  resolve-eq-found ps t = resolve-append [] ps t ∙ rw (nest.resolve-nil t) (later-none (found ps t))

-- What is found behind other providers, and what they give where nothing is.
pub found_behind :
    (ps qs : List Provider) (t : Token) {s : Supply}
    → found qs t ≡ some s
    → found (ps ++ qs) t ≡ some s
found_behind ps qs t h = found-append ps qs t ∙ rw h refl

pub found_past :
    (ps qs : List Provider) (t : Token) → found qs t ≡ none → found (ps ++ qs) t ≡ found ps t
found_past ps qs t h = found-append ps qs t ∙ rw h refl

-- The two kinds of publisher that there are.
pub data PublisherKind : Type 0 where
  in_memory over_rabbitmq : PublisherKind

abbrev pub injector_of : PublisherKind → Injector
injector_of in_memory = memory_publisher_injector
injector_of over_rabbitmq = inject_rabbitmq_publisher

abbrev pub engine : PublisherKind → PublisherKind → Supply
engine over_rabbitmq over_rabbitmq = use_class "RabbitPubSubEngine"
engine _ _ = use_factory generate_distributor

found_behind_none :
    (ps qs : List Provider) (t : Token)
    → found ps t ≡ none
    → found qs t ≡ none
    → found (ps ++ qs) t ≡ none
found_behind_none ps qs t h k = found_past ps qs t k ∙ h

-- Of the providers of the events and of the queries, with nothing behind that gives the engine.
last_of :
    (events queries : PublisherKind) (rest : List Provider)
    → found rest event_pubsub_engine ≡ none
    → found
        ((injector_of events (some event_publisher)).providers
          ++ ((injector_of queries (some query_publisher)).providers ++ rest))
        event_pubsub_engine
      ≡ some (engine events queries)
last_of in_memory in_memory rest h = rw h refl
last_of in_memory over_rabbitmq rest h = rw h refl
last_of over_rabbitmq in_memory rest h = rw h refl
last_of over_rabbitmq over_rabbitmq rest h = rw h refl

module _ {C I : Type 0} (config : MoiraeConfig C I) where
  found-engine :
      (events queries : PublisherKind)
      → or_default (publisher_of config).event.injector memory_publisher_injector
        ≡ injector_of events
      → or_default (publisher_of config).query.injector memory_publisher_injector
        ≡ injector_of queries
      → found (store_part config).providers event_pubsub_engine ≡ none
      → found (root_providers config) event_pubsub_engine ≡ some (engine events queries)
  unfolding root_providers
  found-engine events queries he hq hs =
      let e = event_pubsub_engine in
      let ds : List Provider =
        record { provide = domain_store; supply = use_class "DomainStore" } ∷ [] in
      let past : found ((store_part config).providers ++ ds) e ≡ none =
        found_behind_none (store_part config).providers ds e hs refl in
      let last = (store_part config).providers ++ ds in
      let both = (event_part config).providers ++ ((query_part config).providers ++ last) in
      let rest : found both e ≡ some (engine events queries) =
        rw (he, hq) (last_of events queries last past) in
      let l₁ = (command_part config).providers ++ both in
      let l₂ = (cache_part config).providers ++ l₁ in
      let l₃ = or_default config.sagas [] ++ l₂ in
      let h₁ : found l₁ e ≡ some (engine events queries) =
        found_behind (command_part config).providers both e rest in
      let h₂ = found_behind (cache_part config).providers l₁ e h₁ in
      let h₃ = found_behind (or_default config.sagas []) l₂ e h₂ in
      found_behind services (options config ++ l₃) e (found_behind (options config) l₃ e h₃)

  -- The engine of the events follows the publisher of the queries: where the events go over RabbitMQ
  -- and the queries do not, it is the one in memory.
  pub for_root-engine :
      (nest : Nest) (events queries : PublisherKind) (storage : ConstructorStorage C)
      → or_default (publisher_of config).event.injector memory_publisher_injector
        ≡ injector_of events
      → or_default (publisher_of config).query.injector memory_publisher_injector
        ≡ injector_of queries
      → nest.resolve (store_part config).providers event_pubsub_engine ≡ none
      → nest.resolve (for_root_async config storage).0.providers event_pubsub_engine
        ≡ some (engine events queries)
  unfolding for_root_async
  for_root-engine nest events queries storage he hq hs =
      resolve-eq-found nest _ event_pubsub_engine
      ∙ found-engine events queries he hq
          (sym (resolve-eq-found nest (store_part config).providers event_pubsub_engine) ∙ hs)
