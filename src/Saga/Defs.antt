-- ===== src/Saga/Defs.antt =====
-- moirae/core/lib/classes/saga.class.ts, saga-manager.class.ts and constructor-storage.class.ts. The
-- sagas of an event run one after the other, while `Promise.all` may interleave them between their
-- writes to the cache.
use Prim.Native.Char.{code}
use Prim.Native.String.{◌++◌}
use moirae.Base.{String, ◌==◌, Bool, Option, none, some, List, [], ◌∷◌, if◌then◌else◌}
use mathlib.Core.List.{◌++◌ as append}
use moirae.Base.Dict.{Dict, get, set}
use moirae.Failure.{Result, ok, err, plain, type_error, Action, pure, ◌>>=◌, ◌>>◌}
use moirae.Message.{Message}
use moirae.Cache.{Handles, Json, add_to_set, read_from_set}

-- What `@SagaStep` registers: the name of the event, the method, the name of the rollback command.
pub record SagaStep (D : Type 0) : Type 0 where
  pub event : String
  pub method : Message D → Result (List (Message D))
  pub rollback_command : String

pub record Saga (D : Type 0) : Type 0 where
  pub command_constructors : Dict String
  pub saga_map : Dict (List (SagaStep D))
  -- `_cacheController` is set
  pub cache_set : Bool

-- `Map.get(…) || []`
abbrev pub steps_of : {D : Type 0} → Option (List (SagaStep D)) → List (SagaStep D)
steps_of none = []
steps_of (some steps) = steps

-- A text in a template: `undefined` is printed.
abbrev pub printed : Option String → String
printed none = "undefined"
printed (some t) = t

abbrev pub correlation_key : String → String
correlation_key id = "moirae__correlation__" ++ id

abbrev pub rollback_key : {D : Type 0} → SagaStep D → Message D → String
rollback_key step event = step.rollback_command ++ ":" ++ printed event.stream_id

-- `const [name, id] = commandKey.split(":")`
unfoldable pub before_colon : String → String
before_colon String.[] = String.[]
before_colon (String.◌∷◌ c s) =
    let rest = before_colon s in if code c == 58 then String.[] else String.◌∷◌ c rest

unfoldable pub after_colon : String → Option String
after_colon String.[] = none
after_colon (String.◌∷◌ c s) = let rest = after_colon s in if code c == 58 then some s else rest

abbrev pub second : Option String → Option String
second none = none
second (some rest) = some (before_colon rest)

unfoldable pub split_key : String → String × Option String
split_key key = (before_colon key, second (after_colon key))

module _ {D : Type 0} where
  -- One round of the `forEach` of `onApplicationBootstrap`.
  abbrev add_step : SagaStep D → Saga D → Saga D
  add_step step s = record s {
    saga_map =
        set step.event (append (steps_of (get step.event s.saga_map)) (step ∷ [])) s.saga_map;
    command_constructors = set step.rollback_command step.rollback_command s.command_constructors;
  }

  unfoldable pub bootstrap : List (SagaStep D) → Saga D → Saga D
  bootstrap [] s = s
  bootstrap (step ∷ steps) s = bootstrap steps (add_step step s)

  unfoldable pub add_saga : Saga D → List (Saga D) → List (Saga D)
  add_saga saga sagas = append sagas (saga ∷ [])

module _ {St D : Type 0} (json : Json String) (cache : Handles St) where
  -- `_storeRollbackCommand`
  unfoldable pub remember : Bool → SagaStep D → Message D → Action St (Unit {0})
  remember cache_set step event s =
      if cache_set
      then (
        ok tt,
        (add_to_set json cache (correlation_key (printed event.correlation_id))
            (rollback_key step event) s).1,
      )
      else (err plain, s)

  abbrev pub one_step : Bool → SagaStep D → Message D → List (Message D) → Action St (Unit {0})
  one_step cache_set step event [] = pure tt
  one_step cache_set step event (c ∷ cs) = remember cache_set step event

  -- The loop of `process`.
  unfoldable pub run_steps : Bool → List (SagaStep D) → Message D → Action St (List (Message D))
  unfolding remember
  run_steps cache_set [] event = pure []
  run_steps cache_set (step ∷ steps) event = do
    commands ← λ s. (step.method event, s)
    one_step cache_set step event commands
    rest ← run_steps cache_set steps event
    pure (append commands rest)

  unfoldable pub process : Saga D → Message D → Action St (List (Message D))
  unfolding run_steps
  process saga event = run_steps saga.cache_set (steps_of (get event.name saga.saga_map)) event

  -- The first error, if there is one; all sagas run.
  abbrev joined : Result (List (Message D)) → Result (List (Message D)) → Result (List (Message D))
  joined (ok xs) (ok ys) = ok (append xs ys)
  joined (ok xs) (err e) = err e
  joined (err e) r = err e

  unfoldable pub apply_event_to_sagas : List (Saga D) → Message D → Action St (List (Message D))
  unfolding process
  apply_event_to_sagas [] event s = (ok [], s)
  apply_event_to_sagas (saga ∷ sagas) event s =
      let (r, s') = process saga event s in
      let (rs, s'') = apply_event_to_sagas sagas event s' in (joined r rs, s'')

  -- A constructor that is not registered is called all the same, which throws.
  unfoldable pub make_command :
      Dict (Option String → String → Message D) → String → String → Result (Message D)
  unfolding split_key
  make_command constructors correlation_id key = elim (get (split_key key).0 constructors) [
    | none ↦ err type_error
    | some construct ↦ ok (construct (split_key key).1 correlation_id)
  ]

  unfoldable pub make_commands :
      Dict (Option String → String → Message D) → String → List String → Result (List (Message D))
  unfolding make_command
  make_commands constructors correlation_id [] = ok []
  make_commands constructors correlation_id (key ∷ keys) =
      let rest = make_commands constructors correlation_id keys in
      elim (make_command constructors correlation_id key) [
        | ok command ↦ elim rest [ ok commands ↦ ok (command ∷ commands) | err e ↦ err e ]
        | err e ↦ err e
      ]

  unfoldable pub rollback_sagas :
      Dict (Option String → String → Message D) → String → St → Result (List (Message D))
  unfolding make_commands
  rollback_sagas constructors correlation_id s =
      make_commands constructors correlation_id
        (read_from_set json cache (correlation_key correlation_id) none s)
