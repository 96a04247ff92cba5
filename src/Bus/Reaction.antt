-- ===== src/Bus/Reaction.antt =====
-- What the event bus does on an event: event.bus.ts, saga-manager.class.ts and the memory publisher.
use mathlib.Core.List.{◌++◌ as append, append-nil, append_assoc}
use moirae.Base.{
  ℕ, String, if◌then◌else◌, Bool, true, false, truthy, inl, inr, Option, none, some, List, [], ◌∷◌,
  map, ◌≡◌, refl, arith, sym, eq_iff, ◌===◌,
}
use moirae.Base.Dict.{Dict, get, set, get-set}
use moirae.Failure.{Error, Result, Result-cases, ok, err}
use moirae.Message.{Message}
use moirae.Cache.{Handles, Json}
use moirae.Observable.Distributor.{Distributor}
use moirae.Observable.Distributor
use moirae.Publisher.{active, idle, Wire}
use moirae.Saga.{Saga, apply_event_to_sagas, rollback_sagas, printed}
use moirae.Bus.Defs.{publish_all}
use moirae.Publisher.Order.{WireLaws, Tracks}
use moirae.Bus.Rollback.{AreNew, outgoing, publish_all-Tracks}
use moirae.Bus.Events.{
  Handler, Stage, Provider, handlers_of, run_handlers, import_handlers, some_rejected, correlated,
  choose_commands, with_status, announce, execute_local,
}

module _ {W D : Type 0} where
  -- One of the handlers throws, when each runs on what those before it left.
  abbrev pub any_throws : Message D → List (Handler W D) → W → Bool
  any_throws event [] w = false
  any_throws event (execute ∷ hs) w =
      let later = any_throws event hs (execute event w).1 in
      elim (execute event w).0 [ ok _ ↦ later | err e ↦ true ]

  -- What all handlers leave.
  abbrev pub all_run : Message D → List (Handler W D) → W → W
  all_run event [] w = w
  all_run event (execute ∷ hs) w = all_run event hs (execute event w).1

  run_handlers-eq :
      (event : Message D) (hs : List (Handler W D)) (w : W)
      → (some_rejected (run_handlers event hs w).0 ≡ any_throws event hs w)
        × ((run_handlers event hs w).1 ≡ all_run event hs w)
  unfolding run_handlers
  run_handlers-eq event [] w = (refl, refl)
  run_handlers-eq event (execute ∷ hs) w =
      let (threw, ran) = run_handlers-eq event hs (execute event w).1 in
      elim (Result-cases (execute event w).0) [
        | inl (u, q) ↦ (rw (q, threw) refl, ran)
        | inr (e, q) ↦ (rw q refl, ran)
      ]

module _ {W D R St P : Type 0} (json : Json String) (cache : Handles St) (wire : Wire D R)
    (constructors : Dict (Option String → String → Message D)) (sagas : List (Saga D))
    (engine : Message D → P → Result (Unit {0}) × P) where
  execute_local-eq :
      (draw : ℕ → String) (event : Message D) (s : Stage W D R St P) (commands : List (Message D))
      (c : St)
      → let (results, w) =
          run_handlers event (handlers_of (get event.name s.bus.handler_map)) s.world in
        choose_commands json cache constructors sagas results event s.cache ≡ (ok commands, c)
        → (publish_all wire draw 0 (map (correlated event) commands) s.publisher).0 ≡ ok tt
        → (engine event s.pub_sub).0 ≡ ok tt
        → execute_local json cache wire constructors sagas engine draw event s ≡ (
          ok tt,
          record {
            world = w;
            bus = record s.bus { status = idle };
            ee = s.ee;
            heard =
                append s.heard (map (λ h. (h, event)) (Distributor.publish s.bus.distributor s.ee));
            publisher = (publish_all wire draw 0 (map (correlated event) commands) s.publisher).1;
            cache = c;
            pub_sub = (engine event s.pub_sub).1;
          },
        )
  unfolding execute_local announce
  execute_local-eq draw event s commands c chosen ran told = ground (arith, chosen, ran, told)

  -- Where the commands that follow on an event can be made, those of the sagas if none of its handlers
  -- throws and the rollback of its correlation if one does, and the engine takes the event: the call does
  -- not throw, the bus is idle, each handler has run once and in order, also behind one that threw, each
  -- local listener hears the event once, and over a publisher with one worker exactly those commands join
  -- what is published, with the correlation of the event where it has one.
  pub execute_local-publishes :
      (draw : ℕ → String) (event : Message D) (s : Stage W D R St P)
      (commands sent : List (Message D)) (c : St)
      → let hs = handlers_of (get event.name s.bus.handler_map) in
        let follow : Message D → Message D = λ command.
          if truthy event.correlation_id
          then record command { correlation_id = event.correlation_id }
          else command in
        (if any_throws event hs s.world
            then (
              rollback_sagas json cache constructors (printed event.correlation_id) s.cache,
              s.cache,
            )
            else apply_event_to_sagas json cache sagas event s.cache)
          ≡ (ok commands, c)
        → (engine event s.pub_sub).0 ≡ ok tt
        → WireLaws wire
        → AreNew wire draw 0 (map follow commands) s.publisher
        → Tracks wire s.publisher sent
        → let (r, s') = execute_local json cache wire constructors sagas engine draw event s in
          (r ≡ ok tt)
          × (s'.bus.status ≡ idle)
          × (s'.world ≡ all_run event hs s.world)
          × (s'.heard
              ≡ append s.heard (map (λ h. (h, event)) (Distributor.publish s.bus.distributor s.ee)))
          × Tracks wire s'.publisher
              (append sent (outgoing wire s.publisher.node_id (map follow commands)))
  unfolding choose_commands
  execute_local-publishes draw event s commands sent c chosen told laws new t =
      let hs = handlers_of (get event.name s.bus.handler_map) in
      let (threw, ran) = run_handlers-eq event hs s.world in
      let (r, t') =
        publish_all-Tracks wire draw 0 (map (correlated event) commands) s.publisher sent laws new
          t in
      let chosen' : choose_commands json cache constructors sagas (run_handlers event hs s.world).0
            event s.cache
          ≡ (ok commands, c) =
        rw threw chosen in
      rw (execute_local-eq draw event s commands c chosen' r told) (refl, refl, ran, refl, t')

  -- Where no commands can be made, because a saga throws or a rollback command is not registered, the
  -- call throws after the handlers have run: nothing is published, no listener hears the event, and
  -- the bus stays active.
  pub execute_local-throws :
      (draw : ℕ → String) (event : Message D) (s : Stage W D R St P) (x : Error) (c : St)
      → let (results, w) =
          run_handlers event (handlers_of (get event.name s.bus.handler_map)) s.world in
        choose_commands json cache constructors sagas results event s.cache ≡ (err x, c)
        → execute_local json cache wire constructors sagas engine draw event s
          ≡ (err x, record (with_status active s) { world = w; cache = c })
  unfolding execute_local
  execute_local-throws draw event s x c chosen = ground (arith, chosen)

-- The handlers that providers have for an event.
abbrev pub handlers_for : {W D : Type 0} → String → List (Provider W D) → List (Handler W D)
handlers_for event [] = []
handlers_for event (none ∷ ps) = handlers_for event ps
handlers_for event (some (name, handler) ∷ ps) =
    let rest = handlers_for event ps in if name === event then handler ∷ rest else rest

module _ {W D : Type 0} where
  -- The import of providers adds the handlers of each event behind those that it had, in order, and
  -- drops none.
  pub import_handlers-handlers_for :
      (event : String) (ps : List (Provider W D)) (m : Dict (List (Handler W D)))
      → handlers_of (get event (import_handlers ps m))
        ≡ append (handlers_of (get event m)) (handlers_for event ps)
  unfolding import_handlers
  import_handlers-handlers_for event [] m = sym (append-nil (handlers_of (get event m)))
  import_handlers-handlers_for event (none ∷ ps) m = import_handlers-handlers_for event ps m
  import_handlers-handlers_for event (some (name, handler) ∷ ps) m =
      let hs = append (handlers_of (get name m)) (handler ∷ []) in
      ground (
        arith,
        import_handlers-handlers_for event ps (set name hs m),
        get-set name event hs m,
        eq_iff name event,
        append_assoc (handlers_of (get name m)) (handler ∷ []) (handlers_for event ps),
      )
