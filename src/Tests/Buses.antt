-- ===== src/Tests/Buses.antt =====
-- Commands, queries and events on the buses, over the memory publisher.
use mathlib.Core.List.{◌++◌ as append}
use moirae.Base.{
  ℕ, suc, ◌+◌, true, false, ◌===◌, ◌==◌, none, some, List, [], ◌∷◌, map, ◌≡◌, refl, ap,
  if◌then◌else◌, Option,
}
use moirae.Base.Dict.{get, has}
use moirae.Failure.{Error, Result, ok, err, custom, Action}
use moirae.Message.{Message}
use moirae.AsyncMap.{construct}
use moirae.AsyncMap
use moirae.AsyncMap.Live.{Live, construct-Live}
use moirae.AsyncMap.History.{IsNew}
use moirae.Observable.Emitter.{listeners}
use moirae.Observable.Distributor
use moirae.Cache.Memory.{MemoryCache, memory_cache}
use moirae.Queue
use moirae.Publisher.{idle, active, Publisher, routed, settle}
use moirae.Publisher
use moirae.Publisher.Order.{Tracks}
use moirae.Publisher.History.{ready-Tracks}
use moirae.Saga.{apply_event_to_sagas, rollback_sagas}
use moirae.Bus.Rollback.{outgoing}
use moirae.Bus.Events.{
  EventBus, Stage, Handler, Provider, handlers_of, run_handlers, import_handlers, some_rejected,
  correlated,
}
use moirae.Bus.Events
use moirae.Bus.Reaction.{
  any_throws, execute_local-publishes, import_handlers-handlers_for, handlers_for,
}
use moirae.Bus.Execute.{in_domains, execute-responds}
use moirae.Bus.Execute
use moirae.Bus.Queries.{Desk, keyed, replied, waits, finish}
use moirae.Bus.Queries
use moirae.Bus.Answer.{execute-finish, execute-returns_error}
use moirae.Tests.Sample.{wire, wire-WireLaws, json, response_codec}
use moirae.Tests.Publisher.{new, ready, ready-IsWired, key_absent}
use moirae.Tests.Bus.{commands, scene, rolled}
use moirae.Tests.Saga.{message, constructors}
use moirae.Publisher.{subscribe}

abbrev wired : Publisher ℕ ℕ
wired =
    subscribe "k" 1
      (record new { response_map = construct (record { uuid = "r"; subscriptions = [] }) [] })

abbrev answering : Publisher ℕ ℕ
answering = Publisher.bootstrap wired

answering-Tracks : Tracks wire answering []
unfolding subscribe Distributor.subscribe Distributor.publish Distributor.channel
    Distributor.listener_count listeners
answering-Tracks = ready-Tracks wire wired (refl, 1, refl) refl refl

abbrev desk : Desk ℕ ℕ ℕ
desk = record { world = 0; publisher = answering }

abbrev as_number : Error → ℕ
as_number e = 99

-- The number 99 stands for an error.
abbrev as_error : ℕ → Option Error
as_error n = if n == 99 then some (custom "Full") else none

abbrev query : Message ℕ
query = record (message "find" (some "eu")) { execution_domain = some "accounts" }

answering_idle : answering.status ≡ idle
unfolding Publisher.bootstrap
answering_idle = refl

answering_quiet : answering.running ≡ []
unfolding Publisher.bootstrap subscribe
answering_quiet = refl

answering-Live : Live answering.response_map
unfolding Publisher.bootstrap subscribe
answering-Live = construct-Live (record { uuid = "r"; subscriptions = [] }) refl

answering-IsNew : IsNew "i" 1 answering.response_map
unfolding Publisher.bootstrap subscribe construct
answering-IsNew = (refl, refl, refl)

queue_empty : (elim answering.queue [ none ↦ false | some q ↦ has "q" q.map ]) ≡ false
unfolding Publisher.bootstrap Queue.empty
queue_empty = refl

answering_empty : AsyncMap.has "key" answering.response_map ≡ false
unfolding Publisher.bootstrap subscribe construct AsyncMap.has
answering_empty = refl

named : (answering.node_id === "") ≡ false
unfolding Publisher.bootstrap subscribe
named = refl

execute-finish_example :
    let (r₁, s₁) =
      Queries.execute {W = ℕ} wire as_number as_error []
        ("orders" ∷ [])
        true
        "key"
        "q"
        "i"
        1
        query
        desk in
    let s₂ : Desk ℕ ℕ ℕ = record s₁ { publisher = (settle wire 99 s₁.publisher).1 } in
    let (r₂, s₃) = finish {W = ℕ} wire as_number as_error [] ("orders" ∷ []) true "key" "i" s₂ in
    (r₁ ≡ waits)
    × (s₁.publisher.running ≡ routed (keyed "key" query) answering ∷ [])
    × (r₂ ≡ replied (err (custom "Full")))
    × (AsyncMap.has "key" s₃.publisher.response_map ≡ false)
unfolding wire response_codec
execute-finish_example =
    execute-finish wire as_number as_error [] ("orders" ∷ []) true "key" "q" "i" 1 query 99 desk []
      wire-WireLaws (λ r. ap (λ p. p.0) (response_codec.pick-put r "")) refl refl refl named
      (refl, key_absent "q" answering.queue queue_empty) answering-Tracks answering_idle
      answering_quiet answering-Live answering-IsNew answering_empty

execute-returns_error_example :
    Queries.execute wire as_number as_error
      (("find", λ q w. (err (custom "Full"), suc w)) ∷ [])
      ("accounts" ∷ [])
      true
      "key"
      "q"
      "i"
      1
      query
      desk
    ≡ (replied (ok 99), record desk { world = 1 })
execute-returns_error_example =
    execute-returns_error wire as_number as_error
      (("find", λ q w. (err (custom "Full"), suc w)) ∷ []) ("accounts" ∷ []) true "key" "q" "i" 1
      query desk (λ q w. (err (custom "Full"), suc w)) (custom "Full") 1 refl refl refl

abbrev command : Message ℕ
command = record (message "order" (some "eu")) {
  execution_domain = some "orders";
  stream_id = some "s1";
}

queue_ready : (elim scene.publisher.queue [ none ↦ false | some q ↦ has "q" q.map ]) ≡ false
unfolding Publisher.bootstrap Queue.empty
queue_ready = refl

execute-responds_example :
    let (r, s') =
      Execute.execute
        (λ c. false)
        json
        memory_cache
        wire
        constructors
        ("accounts" ∷ [])
        (λ n. "q")
        "q"
        "c9"
        "s9"
        command
        scene in
    let c : Message ℕ = record command { correlation_id = some "c1"; stream_id = some "s1" } in
    (r ≡ ok (record { correlation_id = some "c1"; stream_id = some "s1" }))
    × (("c1" === "") ≡ false)
    × (("s1" === "") ≡ false)
    × (in_domains (some "orders") ("accounts" ∷ []) ≡ false
        → (s'.world ≡ scene.world) × Tracks wire s'.publisher (routed c scene.publisher ∷ []))
    × ((handle : Message ℕ → Action ℕ ℕ) (v : ℕ) (w : ℕ)
        → in_domains (some "orders") ("accounts" ∷ []) ≡ true
        → get "order" scene.bus.handlers ≡ some handle
        → handle c scene.world ≡ (ok v, w)
        → s' ≡ record scene { world = w; bus = record scene.bus { status = idle } })
unfolding subscribe
execute-responds_example =
    execute-responds (λ c. false) json memory_cache wire constructors ("accounts" ∷ []) (λ n. "q")
      "q" "c9" "s9" command scene [] refl refl refl wire-WireLaws
      (refl, key_absent "q" scene.publisher.queue queue_ready)
      (ready-Tracks wire ready ready-IsWired refl refl)

-- Two handlers of one event, of which the first throws.
abbrev providers : List (Provider ℕ ℕ)
providers =
    some ("order", λ e w. (err (custom "Full"), w + 1))
    ∷ none
    ∷ some ("order", λ e w. (ok tt, w + 2))
    ∷ []

import_handlers-handlers_for_example :
    handlers_of (get "order" (import_handlers providers []))
    ≡ append [] (handlers_for "order" providers)
import_handlers-handlers_for_example = import_handlers-handlers_for "order" providers []

abbrev stage : Stage ℕ ℕ ℕ MemoryCache ℕ
stage = record {
  world = 0;
  bus = record {
    status = idle;
    handler_map = ("order", handlers_for "order" providers) ∷ [];
    distributor = record { uuid = "e"; subscriptions = ("l", 4) ∷ [] };
  };
  ee = ("e:__dist-key__", 4) ∷ [];
  heard = [];
  publisher = scene.publisher;
  cache = scene.cache;
  pub_sub = 0;
}

abbrev engine : Message ℕ → ℕ → Result (Unit {0}) × ℕ
engine e n = (ok tt, suc n)

abbrev reacting : List (Handler ℕ ℕ)
reacting = handlers_of (get "order" stage.bus.handler_map)

chosen :
    (if any_throws (message "order" (some "eu")) reacting 0
      then (rollback_sagas json memory_cache constructors "c1" stage.cache, stage.cache)
      else apply_event_to_sagas json memory_cache [] (message "order" (some "eu")) stage.cache)
    ≡ (ok commands, stage.cache)
chosen = rw rolled refl

execute_local-publishes_example :
    let event = message "order" (some "eu") in
    let (r, s') =
      Events.execute_local json memory_cache wire constructors [] engine (λ n. "q") event stage in
    (r ≡ ok tt)
    × (s'.bus.status ≡ idle)
    × (s'.world ≡ 3)
    × (s'.heard
        ≡ append [] (map (λ h. (h, event)) (Distributor.publish stage.bus.distributor stage.ee)))
    × Tracks wire s'.publisher (
        outgoing wire "n"
          (map {A = Message ℕ} (λ c. record c { correlation_id = some "c1" }) commands))
unfolding Publisher.bootstrap Publisher.subscribe
execute_local-publishes_example =
    execute_local-publishes json memory_cache wire constructors [] engine (λ n. "q")
      (message "order" (some "eu")) stage commands [] stage.cache chosen refl wire-WireLaws
      ((refl, key_absent "q" scene.publisher.queue queue_ready), tt)
      (ready-Tracks wire ready ready-IsWired refl refl)
