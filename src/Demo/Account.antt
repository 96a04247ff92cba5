-- ===== src/Demo/Account.antt =====
-- demo/account/src/aggregates/account.aggregate.ts and the handlers of its commands. An event of a
-- class has the data of that class, and one with other data is refused; `now` is the time that `new Date()`
-- gives when the class handles an event, and `fresh` the uuid of a new event, drawn when the event is rolled back.
use mathlib.Core.List.{◌++◌ as append}
use moirae.Base.{
  ℕ, String, ◌===◌, if◌then◌else◌, false, not, Option, none, some, List, [], ◌∷◌, select,
}
use moirae.Failure.{Result, ok, err, type_error, Action}
use moirae.Message.{Message}
use moirae.Aggregate.{Class, Aggregate, checked}
use moirae.Demo.Integers.{ℤ, add, negate}

pub record Order : Type 0 where
  pub id : String
  pub account_id : String
  pub inventory_id : String
  pub cost : ℤ
  pub quantity : ℕ
  pub created_at : ℕ
  pub updated_at : ℕ

-- The fields of `AccountAggregate`; one that is not set is `undefined`, and so is a sum with it `NaN`.
pub record Account : Type 0 where
  pub name : Option String
  pub balance : Option ℤ
  pub created_at : Option ℕ
  pub orders : Option (List Order)

-- `$data` of the events.
pub data Payload : Type 0 where
  -- the balance, the time, the name
  account_data : ℤ → ℕ → String → Payload
  funds_data : ℤ → Payload
  order_data : Order → Payload
  id_data : String → Payload

abbrev pub sum : Option ℤ → ℤ → Option ℤ
sum none funds = none
sum (some b) funds = some (add b funds)

abbrev pub orders_of : Option (List Order) → List Order
orders_of none = []
orders_of (some os) = os

-- The events that `@Apply` and `@Rollback` name.
abbrev pub account_created : String
account_created = "AccountCreatedEvent"

abbrev pub funds_deposited : String
funds_deposited = "FundsDepositedEvent"

abbrev pub funds_withdrawn : String
funds_withdrawn = "FundsWithdrawnEvent"

abbrev pub rollback_funds_withdrawn : String
rollback_funds_withdrawn = "RollbackFundsWithdrawnEvent"

abbrev pub order_created : String
order_created = "OrderCreatedEvent"

abbrev pub rollback_order_created : String
rollback_order_created = "RollbackOrderCreatedEvent"

abbrev pub funds_withdrawal_failed : String
funds_withdrawal_failed = "FundsWithdrawalFailedEvent"

abbrev pub handle_account_created : Payload → Account → Result Account
handle_account_created (account_data balance created_at name) s =
    ok (record s { balance = some balance; created_at = some created_at; name = some name })
handle_account_created _ s = err type_error

-- `handleDeposit` and `handleWithdrawal`
abbrev pub handle_funds : Payload → Account → Result Account
handle_funds (funds_data funds) s = ok (record s { balance = sum s.balance funds })
handle_funds _ s = err type_error

abbrev pub handle_rollback_withdrawal : Payload → Account → Result Account
handle_rollback_withdrawal (funds_data funds) s =
    ok (record s { balance = sum s.balance (negate funds) })
handle_rollback_withdrawal _ s = err type_error

abbrev pub handle_create : ℕ → Payload → Account → Result Account
handle_create now (order_data o) s = ok (record s {
  orders =
      some (append (orders_of s.orders) (record o { created_at = now; updated_at = now } ∷ []));
})
handle_create now _ s = err type_error

-- `this.orders.filter`, which throws where there are no orders
abbrev pub handle_rollback_order_created : Payload → Account → Result Account
handle_rollback_order_created (id_data id) s = elim s.orders [
  | none ↦ err type_error
  | some os ↦ ok (record s { orders = some (select (λ o. not (o.id === id)) os) })
]
handle_rollback_order_created _ s = err type_error

abbrev pub on_apply : ℕ → String → Option (Message Payload → Action Account (Unit {0}))
on_apply now name =
    if name === account_created
    then some (λ e. checked (handle_account_created e.payload))
    else if name === funds_deposited
    then some (λ e. checked (handle_funds e.payload))
    else if name === funds_withdrawn
    then some (λ e. checked (handle_funds e.payload))
    else if name === rollback_funds_withdrawn
    then some (λ e. checked (handle_rollback_withdrawal e.payload))
    else if name === order_created
    then some (λ e. checked (handle_create now e.payload))
    else if name === rollback_order_created
    then some (λ e. checked (handle_rollback_order_created e.payload))
    else if name === funds_withdrawal_failed
    then some (λ e s. (ok tt, s))
    else none

-- `new SomeEvent(streamId, data)`
abbrev pub new_event : {D : Type 0} → ℕ → String → String → String → D → Message D
new_event now name uuid stream_id payload = record {
  name = name;
  uuid = uuid;
  stream_id = some stream_id;
  correlation_id = none;
  metadata = some [];
  execution_domain = none;
  response_key = none;
  routing_key = none;
  disable_response = false;
  timestamp = now;
  payload = payload;
}

module _ (now : ℕ) (fresh : String → String) where
  abbrev pub create_rollback_funds_withdrawn :
      Message Payload → Action (Aggregate Account Payload) (Message Payload)
  create_rollback_funds_withdrawn event a =
      (ok (new_event now rollback_funds_withdrawn (fresh event.uuid) a.stream_id event.payload), a)

  abbrev pub create_rollback_order_created :
      Message Payload → Action (Aggregate Account Payload) (Message Payload)
  create_rollback_order_created event a = elim event.payload [
    | order_data o ↦
        (ok (new_event now rollback_order_created (fresh event.uuid) a.stream_id (id_data o.id)), a)
    | _ ↦ (err type_error, a)
  ]

  abbrev pub on_rollback :
      String → Option (Message Payload → Action (Aggregate Account Payload) (Message Payload))
  on_rollback name =
      if name === funds_withdrawn
      then some create_rollback_funds_withdrawn
      else if name === order_created
      then some create_rollback_order_created
      else none

  unfoldable pub account_class : Class Account Payload
  account_class = record {
    initial = record { name = none; balance = none; created_at = none; orders = none };
    deleted = λ s. false;
    on_apply = on_apply now;
    on_rollback = on_rollback;
  }
