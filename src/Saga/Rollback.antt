-- ===== src/Saga/Rollback.antt =====
-- `process` of saga.class.ts and `rollbackSagas` of saga-manager.class.ts together.
use moirae.Base.{
  String, ◌===◌, Bool, true, Option, some, List, [], ◌∷◌, ◌≡◌, refl, arith, ap, ◌∙◌, inl, inr, ◌⊎◌,
  eq_iff, All, map, Bool-cases, Option-cases,
}
use mathlib.Core.Path.{subst, sym}
use moirae.Base.Dict.{Dict, get}
use moirae.Base.Sets.{contains}
use moirae.Failure.{Result-cases, ok}
use moirae.Message.{Message}
use moirae.Cache.{Handles, Json, SetLaws, read_from_set}
use moirae.Saga.Defs.{
  Saga, SagaStep, steps_of, printed, correlation_key, rollback_key, process, before_colon,
  make_command, make_commands, rollback_sagas,
}
use moirae.Saga.Keys.{IsPlain, split_key-rollback_key}
use moirae.Saga.Memory.{Remembered, IsHeld, process-Remembered}

abbrev pub Among : {A : Type 0} → A → List A → Type 0
Among x [] = ⊥
Among x (y ∷ ys) = (x ≡ y) ⊎ Among x ys

contains-parse :
    (json : Json String) (v : String) (raws : List String)
    → contains (json.stringify v) raws ≡ true
    → contains v (map (λ raw. json.parse raw) raws) ≡ true
contains-parse json v [] h = h
contains-parse json v (raw ∷ raws) h = ground (
  arith,
  eq_iff raw (json.stringify v),
  eq_iff (json.parse raw) v,
  json.parse-stringify v,
  contains-parse json v raws,
  h,
)

module _ {St D : Type 0} (json : Json String) (cache : Handles St)
    (constructors : Dict (Option String → String → Message D)) where
  make_commands-Among :
      (cid key : String) (keys : List String) (commands : List (Message D))
      → contains key keys ≡ true
      → make_commands json cache constructors cid keys ≡ ok commands
      → (command : Message D) × (make_command json cache constructors cid key ≡ ok command)
        × Among command commands
  unfolding make_commands
  make_commands-Among cid key [] commands h ran = absurd (ground arith)
  make_commands-Among cid key (k ∷ keys) commands h ran =
      elim (Result-cases (make_command json cache constructors cid k)) [
        | inl (c, q) ↦ elim (Result-cases (make_commands json cache constructors cid keys)) [
          | inl (cs, qs) ↦
              let same : c ∷ cs ≡ commands = ground (arith, q, qs, ran) in
              elim (Bool-cases (k === key)) [
                | inl e ↦
                    let same_key : k ≡ key = ground (arith, eq_iff k key, e) in
                    (
                      c,
                      ap (make_command json cache constructors cid) (sym same_key) ∙ q,
                      subst (Among c) same (inl refl),
                    )
                | inr ne ↦
                    let (d, made, among) =
                      make_commands-Among cid key keys cs (ground (arith, h, ne)) qs in
                    (d, made, subst (Among d) same (inr among))
              ]
          | inr (x, qs) ↦ absurd (ground (arith, q, qs, ran))
        ]
        | inr (x, q) ↦ absurd (ground (arith, q, ran))
      ]

  -- What the command of a key is.
  make_command-rollback_key :
      (cid : String) (step : SagaStep D) (event command : Message D)
      → IsPlain step.rollback_command
      → make_command json cache constructors cid (rollback_key step event) ≡ ok command
      → (make : Option String → String → Message D) × (get step.rollback_command constructors
          ≡ some make)
        × (command ≡ make (some (before_colon (printed event.stream_id))) cid)
  unfolding make_command
  make_command-rollback_key cid step event command plain made =
      let key = split_key-rollback_key step event plain in
      elim (Option-cases (get step.rollback_command constructors)) [
        | inl e ↦ absurd (ground (arith, key, e, made))
        | inr (make, e) ↦ (make, e, ground (arith, key, e, made))
      ]

  -- The rollback of a correlation has the command of a step: made by the constructor of its name, for
  -- the stream of the event as far as its first colon.
  abbrev pub RolledBack : String → Message D → List (Message D) → SagaStep D → Type 0
  RolledBack cid event commands step =
      (make : Option String → String → Message D) × (get step.rollback_command constructors
        ≡ some make)
      × Among (make (some (before_colon (printed event.stream_id))) cid) commands

  module _ (holds : St → String → String → Bool) (laws : SetLaws cache holds) where
    step-RolledBack :
        (cid : String) (step : SagaStep D) (event : Message D) (s : St)
        (commands : List (Message D))
        → event.correlation_id ≡ some cid
        → rollback_sagas json cache constructors cid s ≡ ok commands
        → IsPlain step.rollback_command
        → IsHeld json cache holds laws event s step
        → RolledBack cid event commands step
    unfolding rollback_sagas read_from_set
    step-RolledBack cid step event s commands corr rolled plain held =
        let key = rollback_key step event in
        let raws = cache.handle_read_from_set (correlation_key cid) s in
        let found : contains (json.stringify key) raws ≡ true =
          laws.contains-read (correlation_key cid) (json.stringify key) s
          ∙ ap (λ c. holds s (correlation_key (printed c)) (json.stringify key)) (sym corr)
          ∙ held in
        let (command, made, among) =
          make_commands-Among cid key (map (λ raw. json.parse raw) raws) commands
            (contains-parse json key raws found) rolled in
        let (make, e, it) = make_command-rollback_key cid step event command plain made in
        (make, e, subst (λ c. Among c commands) it among)

    All-RolledBack :
        (cid : String) (steps : List (SagaStep D)) (event : Message D) (s : St)
        (commands : List (Message D))
        → event.correlation_id ≡ some cid
        → rollback_sagas json cache constructors cid s ≡ ok commands
        → All (λ step. IsPlain step.rollback_command) steps
        → All (Remembered json cache holds laws event s) steps
        → All (λ step. (step.method event ≡ ok []) ⊎ RolledBack cid event commands step) steps
    All-RolledBack cid [] event s commands corr rolled plain held = tt
    All-RolledBack cid (step ∷ steps) event s commands corr rolled plain held = (
      elim held.0 [
        | inl none_made ↦ inl none_made
        | inr h ↦ inr (step-RolledBack cid step event s commands corr rolled plain.0 h)
      ],
      All-RolledBack cid steps event s commands corr rolled plain.1 held.1,
    )

    -- Over a cache that keeps its contract: a saga processed an event of a correlation without a throw,
    -- and then the correlation is rolled back without a throw. Then each step of the event made no
    -- command, or its rollback command is among those that the rollback makes, for the stream of the
    -- event as far as its first colon. The names of the rollback commands have no colon.
    pub rollback_sagas-process :
        (cid : String) (saga : Saga D) (event : Message D) (s : St)
        (made commands : List (Message D))
        → event.correlation_id ≡ some cid
        → All (λ step. IsPlain step.rollback_command) (steps_of (get event.name saga.saga_map))
        → (process json cache saga event s).0 ≡ ok made
        → rollback_sagas json cache constructors cid (process json cache saga event s).1
          ≡ ok commands
        → All
            (λ step. (step.method event ≡ ok []) ⊎ RolledBack cid event commands step)
            (steps_of (get event.name saga.saga_map))
    rollback_sagas-process cid saga event s made commands corr plain ran rolled =
        All-RolledBack cid (steps_of (get event.name saga.saga_map)) event
          (process json cache saga event s).1 commands corr rolled plain
          (process-Remembered json cache holds laws saga event s made ran)
