-- ===== src/Saga/Memory.antt =====
-- What a saga remembers of an event in the cache (saga.class.ts), and that a rollback of the correlation
-- (saga-manager.class.ts) makes the commands for it.
use moirae.Base.{String, Bool, true, List, [], ◌∷◌, ◌≡◌, arith, inl, inr, ◌⊎◌, eq_iff, All}
use mathlib.Core.Path.{subst, sym}
use moirae.Base.Dict.{get}
use moirae.Failure.{Error, Result-cases, ok, err}
use moirae.Message.{Message}
use moirae.Cache.{Handles, Json, SetLaws, add_to_set}
use moirae.Saga.Defs.{
  Saga, SagaStep, steps_of, printed, correlation_key, rollback_key, remember, one_step, run_steps,
  process,
}

module _ {St D : Type 0} (json : Json String) (cache : Handles St)
    (holds : St → String → String → Bool) (laws : SetLaws cache holds) where
  -- The cache has the rollback command of a step for an event.
  abbrev pub IsHeld : Message D → St → SagaStep D → Type 0
  IsHeld event s step =
      holds s (correlation_key (printed event.correlation_id))
        (json.stringify (rollback_key step event))
      ≡ true

  one_step-keeps :
      (b : Bool) (step : SagaStep D) (event : Message D) (cs : List (Message D)) (s : St)
      (k v : String)
      → holds s k v ≡ true
      → holds (one_step json cache b step event cs s).1 k v ≡ true
  unfolding remember add_to_set
  one_step-keeps b step event [] s k v h = h
  one_step-keeps b step event (c ∷ cs) s k v h = ground (
    arith,
    laws.holds-add (correlation_key (printed event.correlation_id))
        (json.stringify (rollback_key step event)) k v s,
    h,
  )

  run_steps-keeps :
      (b : Bool) (steps : List (SagaStep D)) (event : Message D) (s : St) (k v : String)
      → holds s k v ≡ true
      → holds (run_steps json cache b steps event s).1 k v ≡ true
  unfolding run_steps
  run_steps-keeps b [] event s k v h = h
  run_steps-keeps b (step ∷ steps) event s k v h = elim (Result-cases (step.method event)) [
    | inl (cs, q) ↦
        let kept = one_step-keeps b step event cs s k v h in
        let s₁ = (one_step json cache b step event cs s).1 in
        ground (arith, q, kept, run_steps-keeps b steps event s₁ k v kept)
    | inr (e, q) ↦ ground (arith, q, h)
  ]

  -- A step that made commands is held after its round, if the round does not throw.
  one_step-holds :
      (b : Bool) (step : SagaStep D) (event : Message D) (c : Message D) (cs : List (Message D))
      (s : St)
      → (one_step json cache b step event (c ∷ cs) s).0 ≡ ok tt
      → IsHeld event (one_step json cache b step event (c ∷ cs) s).1 step
  unfolding remember add_to_set
  one_step-holds b step event c cs s ran =
      let k = correlation_key (printed event.correlation_id) in
      let v = json.stringify (rollback_key step event) in
      ground (arith, laws.holds-add k v k v s, eq_iff k k, eq_iff v v, ran)

  abbrev pub Remembered : Message D → St → SagaStep D → Type 0
  Remembered event s step = (step.method event ≡ ok []) ⊎ IsHeld event s step

  run_steps-ok :
      (b : Bool) (step : SagaStep D) (steps : List (SagaStep D)) (event : Message D) (s : St)
      (cs made : List (Message D))
      → step.method event ≡ ok cs
      → (run_steps json cache b (step ∷ steps) event s).0 ≡ ok made
      → let (r, s₁) = one_step json cache b step event cs s in
        (r ≡ ok tt)
        × (rest : List (Message D)) × ((run_steps json cache b steps event s₁).0 ≡ ok rest)
        × ((run_steps json cache b (step ∷ steps) event s).1
            ≡ (run_steps json cache b steps event s₁).1)
  unfolding run_steps
  run_steps-ok b step steps event s cs made q ran =
      let (r, s₁) = one_step json cache b step event cs s in
      elim (Result-cases r) [
        | inl (u, ur) ↦ elim (Result-cases (run_steps json cache b steps event s₁).0) [
          | inl (rest, rr) ↦ (ur, rest, rr, ground (arith, q, ur, rr))
          | inr (e, er) ↦ absurd (ground (arith, q, ur, er, ran))
        ]
        | inr (e, er) ↦ absurd (ground (arith, q, er, ran))
      ]

  run_steps-err :
      (b : Bool) (step : SagaStep D) (steps : List (SagaStep D)) (event : Message D) (s : St)
      (made : List (Message D)) (e : Error)
      → step.method event ≡ err e
      → ¬ ((run_steps json cache b (step ∷ steps) event s).0 ≡ ok made)
  unfolding run_steps
  run_steps-err b step steps event s made e q ran = ground (arith, q, ran)

  carry :
      (b : Bool) (step : SagaStep D) (steps : List (SagaStep D)) (event : Message D) (s s₁ : St)
      → (run_steps json cache b (step ∷ steps) event s).1
        ≡ (run_steps json cache b steps event s₁).1
      → Remembered event (run_steps json cache b steps event s₁).1 step
      → All (Remembered event (run_steps json cache b steps event s₁).1) steps
      → All (Remembered event (run_steps json cache b (step ∷ steps) event s).1) (step ∷ steps)
  carry b step steps event s s₁ same first rest =
      subst (λ t. All (Remembered event t) (step ∷ steps)) (sym same) (first, rest)

  run_steps-Remembered :
      (b : Bool) (steps : List (SagaStep D)) (event : Message D) (s : St) (made : List (Message D))
      → (run_steps json cache b steps event s).0 ≡ ok made
      → All (Remembered event (run_steps json cache b steps event s).1) steps
  run_steps-Remembered b [] event s made ran = tt
  run_steps-Remembered b (step ∷ steps) event s made ran = elim (Result-cases (step.method event)) [
    | inl ([], q) ↦
        let (r, rest, rr, same) = run_steps-ok b step steps event s [] made q ran in
        carry b step steps event s s same (inl q) (run_steps-Remembered b steps event s rest rr)
    | inl (c ∷ cs, q) ↦
        let (r, rest, rr, same) = run_steps-ok b step steps event s (c ∷ cs) made q ran in
        let s₁ = (one_step json cache b step event (c ∷ cs) s).1 in
        carry b step steps event s s₁ same
          (inr (
            run_steps-keeps b steps event s₁ (correlation_key (printed event.correlation_id))
              (json.stringify (rollback_key step event)) (one_step-holds b step event c cs s r)))
          (run_steps-Remembered b steps event s₁ rest rr)
    | inr (e, q) ↦ absurd (run_steps-err b step steps event s made e q ran)
  ]

  -- If `process` does not throw, each step of the event made no command, or its rollback command is in
  -- the set of the correlation.
  pub process-Remembered :
      (saga : Saga D) (event : Message D) (s : St) (made : List (Message D))
      → (process json cache saga event s).0 ≡ ok made
      → All
          (Remembered event (process json cache saga event s).1)
          (steps_of (get event.name saga.saga_map))
  unfolding process
  process-Remembered saga event s made ran =
      run_steps-Remembered saga.cache_set (steps_of (get event.name saga.saga_map)) event s made ran
