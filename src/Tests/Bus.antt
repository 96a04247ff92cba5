-- ===== src/Tests/Bus.antt =====
-- The command bus with a handler that throws, over the memory publisher and the in-memory cache.
use moirae.Base.{ℕ, suc, ◌≡◌, refl, List, [], ◌∷◌, some}
use moirae.Failure.{ok, err, custom}
use moirae.Message.{Message}
use moirae.Cache.{read_from_set}
use moirae.Cache.Memory.{MemoryCache, memory_cache}
use moirae.Queue
use moirae.Publisher.{idle, active, Publisher}
use moirae.Publisher
use moirae.Publisher.Order.{Tracks}
use moirae.Publisher.History.{ready-Tracks}
use moirae.Saga.{rollback_sagas, make_commands, split_key, before_colon, after_colon}
use moirae.Bus.{Scene, execute_local}
use moirae.Bus.Rollback.{outgoing, execute_local-fails}
use moirae.Tests.Sample.{wire, wire-WireLaws, json}
use moirae.Tests.Publisher.{ready, ready-IsWired, key_absent}
use moirae.Tests.Saga.{message, constructors}

abbrev pub commands : List (Message ℕ)
commands = message "cancel" (some "eu") ∷ []

abbrev pub scene : Scene ℕ ℕ ℕ ℕ MemoryCache
scene = record {
  world = 0;
  bus = record {
    status = idle;
    handlers = ("order", λ c w. (err (custom "Full"), suc w)) ∷ [];
    error_handlers = [];
  };
  publisher = Publisher.bootstrap ready;
  cache = record {
    key_value = [];
    sets = ("moirae__correlation__c1", "qCancelOrder:eu" ∷ []) ∷ [];
  };
}

pub rolled : rollback_sagas json memory_cache constructors "c1" scene.cache ≡ ok commands
unfolding rollback_sagas read_from_set memory_cache make_commands split_key before_colon after_colon
    json
rolled = refl

execute_local-fails_example :
    let (r, s') =
      execute_local json memory_cache wire constructors
        (λ n. "q")
        (message "order" (some "eu"))
        scene in
    (r ≡ ok tt)
    × (s'.bus.status ≡ idle)
    × (s'.world ≡ 1)
    × Tracks wire s'.publisher (outgoing wire "n" commands)
unfolding Publisher.bootstrap Publisher.subscribe Queue.empty
execute_local-fails_example =
    execute_local-fails json memory_cache wire constructors (λ n. "q") (message "order" (some "eu"))
      scene (λ c w. (err (custom "Full"), suc w)) (custom "Full") 1 commands [] refl refl rolled
      refl wire-WireLaws ((refl, key_absent "q" scene.publisher.queue refl), tt)
      (ready-Tracks wire ready ready-IsWired refl refl)
