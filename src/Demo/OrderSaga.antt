-- ===== src/Demo/OrderSaga.antt =====
-- An order and its saga: demo/saga/src/sagas/process-order.saga.ts over
-- moirae/core/lib/classes/saga.class.ts and saga-manager.class.ts.
use mathlib.Core.Path.{subst}
use moirae.Base.{
  String, ◌≡◌, refl, ◌⊎◌, inl, inr, All, Bool, true, Option, some, List, [], ◌∷◌, ap, ◌∙◌, arith,
}
use moirae.Base.Dict.{Dict, get}
use moirae.Failure.{ok}
use moirae.Message.{Message}
use moirae.Cache.{Handles, Json, SetLaws}
use moirae.Saga.{
  SagaStep, process, rollback_sagas, remember, run_steps, steps_of, before_colon, after_colon,
  printed,
}
use moirae.Saga.Keys.{IsPlain, before_colon-plain}
use moirae.Saga.Rollback.{Among, RolledBack, rollback_sagas-process}
use moirae.Demo.Account.{Order, order_created}
use moirae.Demo.Commands.{
  Body, order_body, process_order_saga, remove_inventory_command, rollback_account_command,
  post_order_created,
}

abbrev order_step : String → SagaStep Body
order_step uuid = record {
  event = order_created;
  method = post_order_created uuid;
  rollback_command = "RollbackAccountCommand";
}

-- The table of the constructors that are registered; the rollback command draws `uuid`.
abbrev pub Registers : String → Dict (Option String → String → Message Body) → Type 0
Registers uuid constructors =
    get "RollbackAccountCommand" constructors ≡ some (rollback_account_command uuid)

steps_of_order :
    (uuid : String) (event : Message Body)
    → event.name ≡ order_created
    → steps_of (get event.name (process_order_saga uuid).saga_map) ≡ order_step uuid ∷ []
unfolding process_order_saga
steps_of_order uuid event named = rw named refl

cache_is_set : (uuid : String) → (process_order_saga uuid).cache_set ≡ true
unfolding process_order_saga
cache_is_set uuid = refl

order_step-IsPlain : (uuid : String) → IsPlain (order_step uuid).rollback_command
unfolding after_colon
order_step-IsPlain uuid = refl

module _ {St : Type 0} (json : Json String) (cache : Handles St)
    (constructors : Dict (Option String → String → Message Body))
    (holds : St → String → String → Bool) (laws : SetLaws cache holds) where
  stepped :
      (uuid : String) (o : Order) (event : Message Body) (s : St)
      → event.payload ≡ order_body o
      → (run_steps json cache true (order_step uuid ∷ []) event s).0
        ≡ ok (remove_inventory_command uuid o.inventory_id o.id o.quantity ∷ [])
  unfolding run_steps remember
  stepped uuid o event s filled = ground (arith, filled)

  processed :
      (uuid : String) (o : Order) (event : Message Body) (s : St)
      → event.name ≡ order_created
      → event.payload ≡ order_body o
      → (process json cache (process_order_saga uuid) event s).0
        ≡ ok (remove_inventory_command uuid o.inventory_id o.id o.quantity ∷ [])
  unfolding process
  processed uuid o event s named filled =
      ap (λ steps. (run_steps json cache (process_order_saga uuid).cache_set steps event s).0)
        (steps_of_order uuid event named)
      ∙ rw (cache_is_set uuid) (stepped uuid o event s filled)

  -- When an order was created, the saga asks for its quantity to be removed from its inventory; and if
  -- the correlation is rolled back then, the account is asked to roll the correlation back.
  pub process_order-rolled_back :
      (cid account uuid uuid' : String) (o : Order) (event : Message Body) (s : St)
      (commands : List (Message Body))
      → event.name ≡ order_created
      → event.payload ≡ order_body o
      → event.correlation_id ≡ some cid
      → event.stream_id ≡ some account
      → IsPlain account
      → Registers uuid' constructors
      → let (made, s') = process json cache (process_order_saga uuid) event s in
        rollback_sagas json cache constructors cid s' ≡ ok commands
        → (made ≡ ok (remove_inventory_command uuid o.inventory_id o.id o.quantity ∷ []))
          × Among (rollback_account_command uuid' (some account) cid) commands
  process_order-rolled_back cid account uuid uuid' o event s commands named filled corr streamed
        plain registers rolled =
      let saga = process_order_saga uuid in
      let made = remove_inventory_command uuid o.inventory_id o.id o.quantity ∷ [] in
      let ran = processed uuid o event s named filled in
      let steps = steps_of_order uuid event named in
      let undone =
        subst
          (All (λ step.
            (step.method event ≡ ok [])
            ⊎ RolledBack json cache constructors cid event commands step))
          steps
          (rollback_sagas-process json cache constructors holds laws cid saga event s made commands
            corr (rw steps (order_step-IsPlain uuid, tt)) ran rolled) in
      (
        ran,
        elim undone.0 [
          | inl idle ↦ absurd (ground (arith, filled, idle))
          | inr (make, found, among) ↦
              let same : make ≡ rollback_account_command uuid' = cc in
              let plain_id =
                ap (λ x. before_colon (printed x)) streamed ∙ before_colon-plain account plain in
              subst (λ c. Among c commands)
                (ap (λ f. f (some (before_colon (printed event.stream_id))) cid) same
                  ∙ ap (λ a. rollback_account_command uuid' (some a) cid) plain_id)
                among
        ],
      )
