-- ===== src/Tests/Saga.antt =====
-- A saga with one step, over the in-memory cache.
use moirae.Base.{ℕ, String, ◌≡◌, refl, List, [], ◌∷◌, some, none, Option, true, false, ◌⊎◌, All}
use moirae.Base.Dict.{get}
use moirae.Failure.{ok}
use moirae.Message.{Message}
use moirae.Cache.{add_to_set, read_from_set}
use moirae.Cache.Memory.{memory_cache, holds, memory-SetLaws, empty, handle_add_to_set}
use moirae.Saga.{
  Saga, SagaStep, process, rollback_sagas, remember, split_key, before_colon, after_colon,
  make_commands, steps_of,
}
use moirae.Saga.Rollback.{RolledBack, rollback_sagas-process}
use moirae.Tests.Sample.{json}

abbrev pub message : String → Option String → Message ℕ
message name stream_id = record {
  name = name;
  uuid = "u";
  stream_id = stream_id;
  correlation_id = some "c1";
  metadata = none;
  execution_domain = none;
  response_key = none;
  routing_key = none;
  disable_response = false;
  timestamp = 5;
  payload = 3;
}

abbrev step : SagaStep ℕ
step = record {
  event = "ordered";
  method = λ e. ok (message "reserve" e.stream_id ∷ []);
  rollback_command = "CancelOrder";
}

abbrev saga : Saga ℕ
saga = record {
  command_constructors = ("CancelOrder", "CancelOrder") ∷ [];
  saga_map = ("ordered", step ∷ []) ∷ [];
  cache_set = true;
}

abbrev pub constructors : List (String × (Option String → String → Message ℕ))
constructors = ("CancelOrder", λ id cid. message "cancel" id) ∷ []

abbrev ordered : Message ℕ
ordered = message "ordered" (some "eu:7")

-- The stream of the event is cut at its colon.
rollback_sagas-ordered :
    rollback_sagas json memory_cache constructors "c1"
      (process json memory_cache saga ordered empty).1
    ≡ ok (message "cancel" (some "eu") ∷ [])
unfolding rollback_sagas process remember add_to_set read_from_set memory_cache handle_add_to_set
    make_commands split_key before_colon after_colon json empty
rollback_sagas-ordered = refl

rollback_sagas-process_example :
    All
      (λ step.
        (step.method ordered ≡ ok [])
        ⊎ RolledBack json memory_cache constructors "c1" ordered
            (message "cancel" (some "eu") ∷ [])
            step)
      (steps_of (get "ordered" saga.saga_map))
unfolding process remember add_to_set memory_cache after_colon
rollback_sagas-process_example =
    rollback_sagas-process json memory_cache constructors holds memory-SetLaws "c1" saga ordered
      empty (message "reserve" (some "eu:7") ∷ []) (message "cancel" (some "eu") ∷ []) refl
      (refl, tt) refl rollback_sagas-ordered
