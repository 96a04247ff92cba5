-- ===== src/Node/Plugin.antt =====
-- moirae/node-plugin/lib/classes/moirae-plugin.class.ts, and busses/command.bus.ts and query.bus.ts over
-- in-memory publishers. The functions of the configuration make the publishers; the domains and the
-- messenger are objects that all parts share.
use moirae.Base.{ℕ, String, Option, none, some, List, []}
use moirae.Base.Dict.{Dict}
use moirae.Failure.{Action}
use moirae.Message.{Message}
use moirae.Observable.Messenger.{Messenger}
use moirae.Observable.Messenger
use moirae.Publisher.{EsState, not_ready, idle, Publisher, Wire}
use moirae.Publisher
use moirae.Registry.Storage.{DomainStore}
use moirae.Registry.Storage
use moirae.Rabbit.Publisher.{Role}
use moirae.Bus.{CommandBus, Scene, run_local}
use moirae.Node.Container.{
  command_handler, query_handler, Container, new_container, get_instances, register,
  command_handlers, query_handlers, mock_rollback_sagas,
}

pub record PluginConfig (D R : Type 0) : Type 0 where
  pub domains : List String
  pub get_command_publisher : DomainStore → Messenger → Publisher D R
  pub get_query_publisher : DomainStore → Messenger → Publisher D R
  pub messenger_service : Option Messenger

pub record QueryBus (W D Q : Type 0) : Type 0 where
  pub status : EsState
  pub handlers : Dict (Message D → Action W Q)

pub record MoiraePlugin (W D V Q R : Type 0) : Type 0 where
  pub command_bus : CommandBus W D V
  pub command_publisher : Publisher D R
  -- the roles that the busses give to the publishers
  pub command_role : Role
  pub query_bus : QueryBus W D Q
  pub query_publisher : Publisher D R
  pub query_role : Role
  pub container : Container W D V Q
  pub domain_store : DomainStore
  pub messenger_service : Messenger

abbrev messenger_of : Option Messenger → Messenger
messenger_of none = Messenger.construct
messenger_of (some m) = m

module _ {W D V Q R : Type 0} where
  unfoldable pub construct : PluginConfig D R → MoiraePlugin W D V Q R
  unfolding Messenger.construct
  construct config =
      let domains = Storage.add config.domains [] in
      let messenger = messenger_of config.messenger_service in
      record {
        command_bus = record { status = not_ready; handlers = []; error_handlers = [] };
        command_publisher = config.get_command_publisher domains messenger;
        command_role = Role.command_publisher;
        query_bus = record { status = not_ready; handlers = [] };
        query_publisher = config.get_query_publisher domains messenger;
        query_role = Role.query_publisher;
        container = new_container;
        domain_store = domains;
        messenger_service = messenger;
      }

  unfoldable pub inject_command_handler :
      (Message D → Action W V) → String → MoiraePlugin W D V Q R → MoiraePlugin W D V Q R
  unfolding register
  inject_command_handler instance command p = record p {
    container = register (command_handler command (some instance)) p.container;
  }

  unfoldable pub inject_query_handler :
      (Message D → Action W Q) → String → MoiraePlugin W D V Q R → MoiraePlugin W D V Q R
  unfolding register
  inject_query_handler instance query p = record p {
    container = register (query_handler query (some instance)) p.container;
  }

  -- `onApplicationBootstrap` of the two busses
  unfoldable pub bootstrap_commands : String → ℕ → MoiraePlugin W D V Q R → MoiraePlugin W D V Q R
  unfolding command_handlers Publisher.subscribe
  bootstrap_commands key listener p = record p {
    command_bus = record p.command_bus {
      handlers = command_handlers (get_instances p.container) p.command_bus.handlers;
      status = idle;
    };
    command_publisher = Publisher.subscribe key listener p.command_publisher;
  }

  unfoldable pub bootstrap_queries : String → ℕ → MoiraePlugin W D V Q R → MoiraePlugin W D V Q R
  unfolding query_handlers Publisher.subscribe
  bootstrap_queries key listener p = record p {
    query_bus = record p.query_bus {
      handlers = query_handlers (get_instances p.container) p.query_bus.handlers;
      status = idle;
    };
    query_publisher = Publisher.subscribe key listener p.query_publisher;
  }

  -- The keys and the listeners are those of the subscriptions of the two busses.
  unfoldable pub init : String → ℕ → String → ℕ → MoiraePlugin W D V Q R → MoiraePlugin W D V Q R
  unfolding bootstrap_commands bootstrap_queries Publisher.bootstrap
  init key listener key' listener' p =
      let ready : MoiraePlugin W D V Q R = record p {
        command_publisher = Publisher.bootstrap p.command_publisher;
        query_publisher = Publisher.bootstrap p.query_publisher;
      } in
      bootstrap_queries key' listener' (bootstrap_commands key listener ready)

  unfoldable pub tear_down : MoiraePlugin W D V Q R → MoiraePlugin W D V Q R
  unfolding Publisher.shutdown
  tear_down p = record p {
    command_publisher = Publisher.shutdown p.command_publisher;
    query_publisher = Publisher.shutdown p.query_publisher;
  }

-- `executeLocal` of the command bus of the plugin, whose saga manager is the mock.
module _ {W D R V St : Type 0} (wire : Wire D R) where
  unfoldable pub execute_local : (ℕ → String) → Message D → Action (Scene W D R V St) (Unit {0})
  unfolding run_local mock_rollback_sagas
  execute_local = run_local wire mock_rollback_sagas
