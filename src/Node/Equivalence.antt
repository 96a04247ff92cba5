-- ===== src/Node/Equivalence.antt =====
-- The busses of the plugin beside those of moirae/core/lib/busses: what `init` of moirae-plugin.class.ts
-- leaves behind a chain of injections.
use mathlib.Core.List.{append-nil, append_assoc}
use moirae.Base.{
  ℕ, String, ◌===◌, if◌then◌else◌, Option, none, some, List, [], ◌∷◌, ◌++◌, map, ◌≡◌, refl, sym,
  ◌∙◌, arith,
}
use moirae.Base.Dict
use moirae.Base.Dict.{Dict, get, get-set}
use moirae.Failure.{ok, Action}
use moirae.Message.{Message}
use moirae.Cache.{Handles, Json}
use moirae.Observable.Messenger.{Messenger}
use moirae.Publisher.{Publisher, Wire, idle}
use moirae.Publisher
use moirae.Saga.{rollback_sagas, printed}
use moirae.Bus.{CommandBus, Scene, run_local}
use moirae.Bus.Rollback.{run_local-rollback}
use moirae.Bus
use moirae.Bus.Execute.{Provider, import_all, import_instance, bootstrap}
use moirae.Node.Container.{
  Registered, command_handler, query_handler, register, command_of, command_handlers,
  query_handlers, mock_rollback_sagas,
}
use moirae.Node.Plugin.{
  PluginConfig, MoiraePlugin, construct, inject_command_handler, inject_query_handler, init,
  bootstrap_commands, bootstrap_queries, execute_local,
}

abbrev pub or_earlier {ℓ} : {A : Type ℓ} → Option A → Option A → Option A
or_earlier none earlier = earlier
or_earlier (some a) earlier = some a

or_earlier-none {ℓ} : {A : Type ℓ} (a : Option A) → or_earlier a none ≡ a
or_earlier-none none = refl
or_earlier-none (some a) = refl

-- One call of a chain of injections.
pub data Injection (W D V Q : Type 0) : Type 0 where
  of_command : (Message D → Action W V) → String → Injection W D V Q
  of_query : (Message D → Action W Q) → String → Injection W D V Q

module _ {W D V Q : Type 0} where
  abbrev pub registered : Injection W D V Q → Registered W D V Q
  registered (of_command h name) = command_handler name (some h)
  registered (of_query h name) = query_handler name (some h)

  -- What the decorator of the same handler says to Nest.
  abbrev pub provider_of : Injection W D V Q → Provider W D V
  provider_of i = record { handles = command_of (registered i); catches = none }

  abbrev pub inject_all :
      {R : Type 0} → List (Injection W D V Q) → MoiraePlugin W D V Q R → MoiraePlugin W D V Q R
  inject_all [] p = p
  inject_all (of_command h name ∷ is) p = inject_all is (inject_command_handler h name p)
  inject_all (of_query h name ∷ is) p = inject_all is (inject_query_handler h name p)

  -- The last handler of a role that was injected for a name.
  abbrev pub last_command : String → List (Injection W D V Q) → Option (Message D → Action W V)
  last_command k [] = none
  last_command k (of_query h name ∷ is) = last_command k is
  last_command k (of_command h name ∷ is) =
      or_earlier (last_command k is) (if name === k then some h else none)

  abbrev pub last_query : String → List (Injection W D V Q) → Option (Message D → Action W Q)
  last_query k [] = none
  last_query k (of_command h name ∷ is) = last_query k is
  last_query k (of_query h name ∷ is) =
      or_earlier (last_query k is) (if name === k then some h else none)

  get-command_handlers :
      (k : String) (is : List (Injection W D V Q)) (m : Dict (Message D → Action W V))
      → get k (command_handlers (map registered is) m) ≡ or_earlier (last_command k is) (get k m)
  unfolding command_handlers
  get-command_handlers k [] m = refl
  get-command_handlers k (of_query h name ∷ is) m = get-command_handlers k is m
  get-command_handlers k (of_command h name ∷ is) m =
      ground (arith, get-command_handlers k is (Dict.set name h m), get-set name k h m)

  get-query_handlers :
      (k : String) (is : List (Injection W D V Q)) (m : Dict (Message D → Action W Q))
      → get k (query_handlers (map registered is) m) ≡ or_earlier (last_query k is) (get k m)
  unfolding query_handlers
  get-query_handlers k [] m = refl
  get-query_handlers k (of_command h name ∷ is) m = get-query_handlers k is m
  get-query_handlers k (of_query h name ∷ is) m =
      ground (arith, get-query_handlers k is (Dict.set name h m), get-set name k h m)

  -- Nest imports the same table of handlers, and no filters.
  import_all-command_handlers :
      (is : List (Injection W D V Q)) (b : CommandBus W D V)
      → import_all (map provider_of is) b
        ≡ record b { handlers = command_handlers (map registered is) b.handlers }
  unfolding import_all import_instance command_handlers
  import_all-command_handlers [] b = refl
  import_all-command_handlers (i ∷ is) b =
      import_all-command_handlers is (import_instance (provider_of i) b)

  module _ {R : Type 0} where
    inject_all-container :
        (is : List (Injection W D V Q)) (p : MoiraePlugin W D V Q R)
        → inject_all is p ≡ record p { container = p.container ++ map registered is }
    unfolding inject_command_handler inject_query_handler register
    inject_all-container [] p = rw append-nil refl
    inject_all-container (of_command h name ∷ is) p =
        inject_all-container is (inject_command_handler h name p) ∙ rw append_assoc refl
    inject_all-container (of_query h name ∷ is) p =
        inject_all-container is (inject_query_handler h name p) ∙ rw append_assoc refl

    -- After a chain of injections and `init`, each bus has for a name the handler of its own role that
    -- was injected last for it, and none if there was none.
    pub init-handlers :
        (config : PluginConfig D R) (is : List (Injection W D V Q)) (key : String) (listener : ℕ)
        (key' : String) (listener' : ℕ) (name : String)
        → let p = init key listener key' listener' (inject_all is (construct config)) in
          (get name p.command_bus.handlers ≡ last_command name is)
          × (get name p.query_bus.handlers ≡ last_query name is)
    unfolding init construct bootstrap_commands bootstrap_queries
    init-handlers config is key listener key' listener' name =
        rw (inject_all-container is (construct config)) (
          get-command_handlers name is [] ∙ or_earlier-none (last_command name is),
          get-query_handlers name is [] ∙ or_earlier-none (last_query name is),
        )

module _ {W D V Q R St : Type 0} (json : Json String) (cache : Handles St) (wire : Wire D R)
    (constructors : Dict (Option String → String → Message D)) where
  pub execute_local-eq :
      (config : PluginConfig D R) (is : List (Injection W D V Q)) (key : String) (listener : ℕ)
      (key' : String) (listener' : ℕ) (m : Messenger) (draw : ℕ → String) (command : Message D)
      (w : W) (publisher : Publisher D R) (c : St)
      → rollback_sagas json cache constructors (printed command.correlation_id) c ≡ ok []
      → let made : MoiraePlugin W D V Q R = construct config in
        let p = init key listener key' listener' (inject_all is made) in
        let (bus, subscribed, _) =
          bootstrap
            (map provider_of is)
            key
            listener
            m
            made.command_bus
            (Publisher.bootstrap made.command_publisher) in
        (p.command_publisher ≡ subscribed)
        × (execute_local wire draw command
              (record { world = w; bus = p.command_bus; publisher = publisher; cache = c })
            ≡ Bus.execute_local json cache wire constructors draw command
                (record { world = w; bus = bus; publisher = publisher; cache = c }))
  unfolding init construct bootstrap_commands bootstrap_queries bootstrap execute_local
      Bus.execute_local mock_rollback_sagas
  execute_local-eq config is key listener key' listener' m draw command w publisher c quiet =
      let made : MoiraePlugin W D V Q R = construct config in
      let bus : CommandBus W D V = record made.command_bus {
        handlers = command_handlers (map registered is) [];
        status = idle;
      } in
      let scene : Scene W D R V St = record {
        world = w;
        bus = bus;
        publisher = publisher;
        cache = c;
      } in
      rw (inject_all-container is made, import_all-command_handlers is made.command_bus)
        (
          refl,
          run_local-rollback wire mock_rollback_sagas (rollback_sagas json cache constructors) draw
              command scene (sym quiet),
        )
