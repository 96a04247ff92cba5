-- ===== src/Demo/Commands.antt =====
-- The commands of demo/account/src/commands, account/src/order/commands and
-- inventory/src/commands, over classes/eventable.class.ts and command.class.ts of moirae/core/lib, and the saga of
-- demo/saga/src/sagas. A command has no timestamp; `uuid` is the one that it draws.
use moirae.Base.{ℕ, String, Option, none, some, List, [], ◌∷◌, false, true}
use moirae.Base.Dict.{Dict}
use moirae.Failure.{Result, ok, err, type_error}
use moirae.Message.{Message}
use moirae.Saga.{Saga, SagaStep}
use moirae.Saga
use moirae.Demo.Integers.{ℤ}
use moirae.Demo.Account.{Order, order_created}

-- `input` or `$data` of a command, and the data of the event that the saga hears.
pub data Body : Type 0 where
  order_body : Order → Body
  -- the name, the balance
  create_account_input : String → Option ℤ → Body
  -- the account, the funds
  funds_input : String → ℤ → Body
  -- the account, the inventory, the quantity
  order_input : String → String → ℕ → Body
  -- the name, the quantity, the price
  create_inventory_input : String → ℤ → ℤ → Body
  -- the inventory, the order, the quantity
  remove_inventory_input : String → String → ℕ → Body
  -- the stream, the correlation
  rollback_data : Option String → String → Body

abbrev pub account_domain : String
account_domain = "__account_domain__"

abbrev pub inventory_domain : String
inventory_domain = "__inventory_domain__"

-- The constructor of `Eventable`, and what a class adds: its domain and its `STREAM_ID`.
abbrev pub new_command :
    String → String → Dict String → String → Option String → Body → Message Body
new_command name uuid metadata domain stream_id body = record {
  name = name;
  uuid = uuid;
  stream_id = stream_id;
  correlation_id = none;
  metadata = some metadata;
  execution_domain = some domain;
  response_key = none;
  routing_key = none;
  disable_response = false;
  timestamp = 0;
  payload = body;
}

abbrev pub create_account_command : String → String → Option ℤ → Message Body
create_account_command uuid name balance =
    new_command "CreateAccountCommand" uuid [] account_domain none
      (create_account_input name balance)

abbrev pub deposit_funds_command : String → String → ℤ → Message Body
deposit_funds_command uuid account funds =
    new_command "DepositFundsCommand" uuid [] account_domain (some account)
      (funds_input account funds)

abbrev pub withdraw_funds_command : String → String → ℤ → Message Body
withdraw_funds_command uuid account funds =
    new_command "WithdrawFundsCommand" uuid [] account_domain (some account)
      (funds_input account funds)

abbrev pub create_order_command : String → String → String → ℕ → Message Body
create_order_command uuid account inventory quantity =
    new_command "CreateOrderCommand" uuid [] account_domain (some account)
      (order_input account inventory quantity)

-- `super({ requestorId })`; without a requestor the text of the metadata has no such key.
abbrev pub requested_by : Option String → Dict String
requested_by none = []
requested_by (some id) = ("requestorId", id) ∷ []

abbrev pub create_inventory_command : String → Option String → String → ℤ → ℤ → Message Body
create_inventory_command uuid requestor name quantity price =
    new_command "CreateInventoryCommand" uuid (requested_by requestor) inventory_domain none
      (create_inventory_input name quantity price)

abbrev pub remove_inventory_command : String → String → String → ℕ → Message Body
remove_inventory_command uuid inventory order quantity =
    new_command "RemoveInventoryCommand" uuid [] inventory_domain (some inventory)
      (remove_inventory_input inventory order quantity)

-- What the constructor of a rollback command is called with: a stream that may be `undefined`.
abbrev pub rollback_account_command : String → Option String → String → Message Body
rollback_account_command uuid stream correlation =
    new_command "RollbackAccountCommand" uuid [] account_domain stream
      (rollback_data stream correlation)

-- `postOrderCreated` of `ProcessOrderSaga`
abbrev pub post_order_created : String → Message Body → Result (List (Message Body))
post_order_created uuid event = elim event.payload [
  | order_body o ↦ ok (remove_inventory_command uuid o.inventory_id o.id o.quantity ∷ [])
  | _ ↦ err type_error
]

-- The saga when the application has started.
unfoldable pub process_order_saga : String → Saga Body
unfolding Saga.bootstrap
process_order_saga uuid =
    Saga.bootstrap
      (record {
        event = order_created;
        method = post_order_created uuid;
        rollback_command = "RollbackAccountCommand";
      }
        ∷ [])
      (record { command_constructors = []; saga_map = []; cache_set = true })
