-- ===== src/Bus/Events.antt =====
-- moirae/core/lib/busses/event.bus.ts. The handlers of an event run one after the other, while
-- `Promise.allSettled` may interleave them. What the engine for subscriptions does on `publish` is a
-- parameter.
use mathlib.Core.List.{◌++◌ as append}
use moirae.Base.{
  ℕ, String, Bool, true, false, if◌then◌else◌, Option, none, some, List, [], ◌∷◌, map, truthy,
}
use moirae.Base.Dict.{Dict, get, set}
use moirae.Failure.{Result, ok, err, Action}
use moirae.Message.{Message}
use moirae.Cache.{Handles, Json}
use moirae.Observable.Emitter.{Emitter}
use moirae.Observable.Distributor.{Distributor}
use moirae.Observable.Distributor
use moirae.Observable.Messenger.{Messenger}
use moirae.Observable.Messenger
use moirae.Publisher.{EsState, active, idle, Publisher, Wire}
use moirae.Publisher
use moirae.Saga.{Saga, apply_event_to_sagas, rollback_sagas, printed}
use moirae.Bus.Defs.{publish_all}

-- `execute` of an event handler
abbrev pub Handler : Type 0 → Type 0 → Type 0
Handler W D = Message D → Action W (Unit {0})

pub record EventBus (W D : Type 0) : Type 0 where
  pub status : EsState
  pub handler_map : Dict (List (Handler W D))
  pub distributor : Distributor

-- What a call of `executeLocal` may change; `heard` are the calls of the local listeners.
pub record Stage (W D R St P : Type 0) : Type 0 where
  pub world : W
  pub bus : EventBus W D
  pub ee : Emitter
  pub heard : List (ℕ × Message D)
  pub publisher : Publisher D R
  pub cache : St
  pub pub_sub : P

abbrev pub handlers_of : {W D : Type 0} → Option (List (Handler W D)) → List (Handler W D)
handlers_of none = []
handlers_of (some hs) = hs

-- What `@EventHandler` says of a provider: the name of the event, and the handler.
abbrev pub Provider : Type 0 → Type 0 → Type 0
Provider W D = Option (String × Handler W D)

module _ {W D : Type 0} where
  -- `Promise.allSettled`: all handlers run, whatever the others do.
  unfoldable pub run_handlers : Message D → List (Handler W D) → W → List (Result (Unit {0})) × W
  run_handlers event [] w = ([], w)
  run_handlers event (execute ∷ hs) w =
      let (r, w') = execute event w in let (rs, w'') = run_handlers event hs w' in (r ∷ rs, w'')

  -- The `forEach` of `onApplicationBootstrap`.
  unfoldable pub import_handlers :
      List (Provider W D) → Dict (List (Handler W D)) → Dict (List (Handler W D))
  import_handlers [] m = m
  import_handlers (none ∷ ps) m = import_handlers ps m
  import_handlers (some (event, handler) ∷ ps) m =
      import_handlers ps (set event (append (handlers_of (get event m)) (handler ∷ [])) m)

abbrev pub some_rejected : List (Result (Unit {0})) → Bool
some_rejected [] = false
some_rejected (ok _ ∷ rs) = some_rejected rs
some_rejected (err e ∷ rs) = true

-- `if (event.$correlationId) command.$correlationId = event.$correlationId`
abbrev pub correlated : {D : Type 0} → Message D → Message D → Message D
correlated event command =
    if truthy event.correlation_id
    then record command { correlation_id = event.correlation_id }
    else command

module _ {St D : Type 0} (json : Json String) (cache : Handles St)
    (constructors : Dict (Option String → String → Message D)) (sagas : List (Saga D)) where
  -- The commands that follow on the event, or the rollback of its correlation.
  unfoldable pub choose_commands :
      List (Result (Unit {0})) → Message D → Action St (List (Message D))
  choose_commands results event s =
      if some_rejected results
      then (rollback_sagas json cache constructors (printed event.correlation_id) s, s)
      else apply_event_to_sagas json cache sagas event s

module _ {W D R St P : Type 0} where
  abbrev pub with_status : EsState → Stage W D R St P → Stage W D R St P
  with_status status s = record s { bus = record s.bus { status = status } }

module _ {W D R St P : Type 0} (json : Json String) (cache : Handles St) (wire : Wire D R)
    (constructors : Dict (Option String → String → Message D)) (sagas : List (Saga D))
    (engine : Message D → P → Result (Unit {0}) × P) where
  -- What follows when the commands are published.
  unfoldable pub announce : Message D → Action (Stage W D R St P) (Unit {0})
  announce event s =
      let (r, e) = engine event s.pub_sub in
      let s' : Stage W D R St P = record s {
        heard = append s.heard (map (λ h. (h, event)) (Distributor.publish s.bus.distributor s.ee));
        pub_sub = e;
      } in
      elim r [ err x ↦ (err x, s') | ok _ ↦ (ok tt, with_status idle s') ]

  unfoldable pub execute_local : (ℕ → String) → Message D → Action (Stage W D R St P) (Unit {0})
  unfolding announce choose_commands
  execute_local draw event s =
      let (results, w) =
        run_handlers event (handlers_of (get event.name s.bus.handler_map)) s.world in
      let (chosen, c) = choose_commands json cache constructors sagas results event s.cache in
      let s₁ : Stage W D R St P = record (with_status active s) { world = w; cache = c } in
      elim chosen [
        | err x ↦ (err x, s₁)
        | ok commands ↦
            let (r, p) = publish_all wire draw 0 (map (correlated event) commands) s.publisher in
            let s₂ : Stage W D R St P = record s₁ { publisher = p } in
            elim r [ err x ↦ (err x, s₂) | ok _ ↦ announce event s₂ ]
      ]

module _ {W D R : Type 0} where
  -- `onApplicationBootstrap` over the publisher of the event source, with the key of the subscription
  -- and the listener that `executeLocal` becomes; last, the handlers that the messenger calls.
  unfoldable pub bootstrap :
      List (Provider W D)
      → String
      → ℕ
      → Messenger
      → EventBus W D
      → Publisher D R
      → EventBus W D × Publisher D R × List ℕ
  unfolding import_handlers
  bootstrap providers key listener m b p = (
    record b { status = idle; handler_map = import_handlers providers b.handler_map },
    Publisher.subscribe key listener p,
    Messenger.publish "EventBusReadyMessage" m,
  )

module _ {W D : Type 0} where
  unfoldable pub listen_local : String → ℕ → EventBus W D → Emitter → EventBus W D × Emitter
  listen_local key listener b ee =
      let (d, ee') = Distributor.subscribe key listener b.distributor ee in
      (record b { distributor = d }, ee')

  unfoldable pub remove_local_listener : String → EventBus W D → Emitter → EventBus W D × Emitter
  remove_local_listener key b ee =
      let (d, ee') = Distributor.unsubscribe key b.distributor ee in
      (record b { distributor = d }, ee')
