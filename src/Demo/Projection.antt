-- ===== src/Demo/Projection.antt =====
-- The read side of demo/account/src: account.service.ts, order/order.service.ts, the handlers of
-- events in handlers and order/handlers, and the query in handlers/find-account-by-id.handler.ts. The
-- repositories of typeorm are a parameter; in a row `updatedAt` is a column that the database fills in, and there
-- is none for the orders.
use moirae.Base.{ℕ, String, ◌===◌, if◌then◌else◌, Option, none, some, List, [], ◌∷◌, ◌≡◌}
use moirae.Failure.{Error, Result, ok, err, type_error, custom, Action}
use moirae.Aggregate.{Aggregate}
use moirae.Store.{MemoryStore, merge_context}
use moirae.Demo.Integers.{ℤ}
use moirae.Demo.Account.{Account, Order, Payload, account_class}

-- `toProjection` of an account, and the row of the entity of projections/account.entity.ts.
pub record Projection : Type 0 where
  pub id : String
  pub name : Option String
  pub balance : Option ℤ
  pub created_at : Option ℕ
  pub orders : Option (List Order)
  pub updated_at : Option ℕ

pub record AccountRow : Type 0 where
  pub id : String
  pub name : String
  pub balance : ℤ
  pub created_at : ℕ

abbrev pub to_projection : Aggregate Account Payload → Projection
to_projection a = record {
  id = a.stream_id;
  name = a.state.name;
  balance = a.state.balance;
  created_at = a.state.created_at;
  orders = a.state.orders;
  updated_at = a.updated_at;
}

-- The projection that has every column, with whatever else it has.
abbrev pub complete : AccountRow → Option (List Order) → Option ℕ → Projection
complete row orders updated_at = record {
  id = row.id;
  name = some row.name;
  balance = some row.balance;
  created_at = some row.created_at;
  orders = orders;
  updated_at = updated_at;
}

-- `findOne({ where: { id } })`, `save` and `remove`. What is saved or removed may be `undefined`.
pub record Repositories (St : Type 0) : Type 0 where
  pub find_account : String → St → Option AccountRow
  pub save_account : Projection → Action St (Unit {0})
  pub find_order : String → St → Option Order
  pub save_order : Option Order → Action St (Unit {0})
  pub remove_order : Option Order → Action St (Unit {0})

-- A projection with every column is inserted or updated by its id; what becomes of others is not spoken
-- of. `undefined` is no entity.
pub record RepositoryLaws {St : Type 0} (t : Repositories St) : Type 0 where
  pub save_account-ok :
      (row : AccountRow) (orders : Option (List Order)) (updated_at : Option ℕ) (s : St)
      → (t.save_account (complete row orders updated_at) s).0 ≡ ok tt
  pub find_account-save :
      (row : AccountRow) (orders : Option (List Order)) (updated_at : Option ℕ) (id : String)
      (s : St)
      → t.find_account id (t.save_account (complete row orders updated_at) s).1
        ≡ (if row.id === id then some row else t.find_account id s)
  pub save_order-ok : (o : Order) (s : St) → (t.save_order (some o) s).0 ≡ ok tt
  pub find_order-save :
      (o : Order) (id : String) (s : St)
      → t.find_order id (t.save_order (some o) s).1
        ≡ (if o.id === id then some o else t.find_order id s)
  pub save_order-none : (s : St) → (e : Error) × (t.save_order none s ≡ (err e, s))
  pub remove_order-ok : (o : Order) (s : St) → (t.remove_order (some o) s).0 ≡ ok tt
  pub find_order-remove :
      (o : Order) (id : String) (s : St)
      → t.find_order id (t.remove_order (some o) s).1
        ≡ (if o.id === id then none else t.find_order id s)
  pub remove_order-none : (s : St) → (e : Error) × (t.remove_order none s ≡ (err e, s))

-- `orders.find((order) => order.id === id)`
abbrev pub find_by_id : String → List Order → Option Order
find_by_id id [] = none
find_by_id id (o ∷ os) = if o.id === id then some o else find_by_id id os

abbrev pub not_found : Error
not_found = custom "NotFoundException"

module _ {St : Type 0} (t : Repositories St) where
  -- `remove` of `OrderService`
  unfoldable pub remove : String → Action St (Unit {0})
  remove id s = t.remove_order (t.find_order id s) s

  -- `FindAccountByIdHandler`
  unfoldable pub find_account_by_id : String → St → Result AccountRow
  find_account_by_id id s = elim (t.find_account id s) [
    | none ↦ err not_found
    | some account ↦ ok account
  ]

  -- `RollbackOrderCreatedHandler`, for the id in the data of the event
  unfoldable pub on_rollback_order_created : String → Action St (Unit {0})
  unfolding remove
  on_rollback_order_created = remove

  module _ {R : Type 0} (now : ℕ) (fresh : String → String) (store : MemoryStore Payload R) where
    -- `AccountCreatedHandler`, `FundsDepositedHandler`, `FundsWithdrawnHandler` and
    -- `RollbackFundsWithdrawnHandler`, for the stream of the event
    unfoldable pub on_account_event : String → Action St (Unit {0})
    on_account_event stream_id s = elim (merge_context (account_class now fresh) stream_id store) [
      | err e ↦ (err e, s)
      | ok a ↦ t.save_account (to_projection a) s
    ]

    -- `OrderCreatedHandler`, for the stream of the event and the id in its data
    unfoldable pub on_order_created : String → String → Action St (Unit {0})
    on_order_created stream_id id s =
        elim (merge_context (account_class now fresh) stream_id store) [
          | err e ↦ (err e, s)
          | ok a ↦ elim a.state.orders [
            | none ↦ (err type_error, s)
            | some orders ↦ t.save_order (find_by_id id orders) s
          ]
        ]
