-- ===== src/Tests/ReadSide.antt =====
-- Rows of accounts and orders in a database that holds one of each table, and the saga of an order.
use moirae.Base.{ℕ, String, ◌===◌, false, Option, none, some, [], ◌∷◌, ◌≡◌, refl}
use moirae.Base.Dict.{Dict, get, set, delete, get-set, get-delete}
use moirae.Failure.{ok, err, plain, Action}
use moirae.Message.{Message}
use moirae.Aggregate.{Aggregate, construct, apply, apply_all, set_commit_function}
use moirae.Cache.{add_to_set, read_from_set}
use moirae.Cache.Memory.{memory_cache, holds, memory-SetLaws, empty, handle_add_to_set}
use moirae.Store.{MemoryStore, merge_context, loaded, read_from_stream}
use moirae.Saga.{
  process, rollback_sagas, remember, run_steps, split_key, before_colon, after_colon, make_commands,
}
use moirae.Saga.Rollback.{Among}
use moirae.Demo.Integers.{pos, negsuc, add}
use moirae.Demo.Account.{
  Account, Order, Payload, account_class, order_data, new_event, order_created,
}
use moirae.Demo.Projection.{
  Projection, AccountRow, Repositories, RepositoryLaws, on_account_event, on_order_created,
  on_rollback_order_created, find_account_by_id,
}
use moirae.Demo.Handlers.{withdraw_funds}
use moirae.Demo.ReadSide.{withdraw_funds-visible}
use moirae.Demo.OrderRows.{on_order_created-rows}
use moirae.Demo.Commands.{
  Body, order_body, process_order_saga, remove_inventory_command, rollback_account_command,
  new_command, account_domain,
}
use moirae.Demo.OrderSaga.{process_order-rolled_back}
use moirae.Demo.Decorated.{
  account_class-decorate, account_decorations, apply_method, rollback_method,
}
use moirae.Registry.Decorators.{decorate, apply_handler, rollback_handler}
use moirae.Tests.Sample.{json}
use moirae.Tests.Demo.{fresh, wire, created, store, account, loads, draw, order}

record Rows : Type 0 where
  accounts : Dict AccountRow
  orders : Dict Order

abbrev save_row : Projection → Action Rows (Unit {0})
save_row p s = elim p.name [
  | none ↦ (err plain, s)
  | some n ↦ elim p.balance [
    | none ↦ (err plain, s)
    | some b ↦ elim p.created_at [
      | none ↦ (err plain, s)
      | some c ↦ (
        ok tt,
        record s {
          accounts =
              set p.id (record { id = p.id; name = n; balance = b; created_at = c }) s.accounts;
        },
      )
    ]
  ]
]

abbrev save_or_refuse : Option Order → Action Rows (Unit {0})
save_or_refuse none s = (err plain, s)
save_or_refuse (some o) s = (ok tt, record s { orders = set o.id o s.orders })

abbrev remove_or_refuse : Option Order → Action Rows (Unit {0})
remove_or_refuse none s = (err plain, s)
remove_or_refuse (some o) s = (ok tt, record s { orders = delete o.id s.orders })

abbrev repositories : Repositories Rows
repositories = record {
  find_account = λ id s. get id s.accounts;
  save_account = save_row;
  find_order = λ id s. get id s.orders;
  save_order = save_or_refuse;
  remove_order = remove_or_refuse;
}

repositories-RepositoryLaws : RepositoryLaws repositories
repositories-RepositoryLaws = record {
  save_account-ok = λ row orders updated s. refl;
  find_account-save = λ row orders updated id s. get-set row.id id row s.accounts;
  save_order-ok = λ o s. refl;
  find_order-save = λ o id s. get-set o.id id o s.orders;
  save_order-none = λ s. (plain, refl);
  remove_order-ok = λ o s. refl;
  find_order-remove = λ o id s. get-delete o.id id s.orders;
  remove_order-none = λ s. (plain, refl);
}

abbrev rows : Rows
rows = record { accounts = []; orders = [] }

withdraw_funds-visible_example :
    let (r, s') = withdraw_funds 2 fresh wire "s" (negsuc 19) "u2" draw created store in
    let (r', rows') = on_account_event repositories 2 fresh s' "s" rows in
    let (r'', rows'') = on_account_event repositories 2 fresh s' "s" rows' in
    (r ≡ ok tt)
    × (r' ≡ ok tt)
    × (find_account_by_id repositories "s" rows'
        ≡ ok (record { id = "s"; name = "eu"; balance = pos 30; created_at = 1 }))
    × ((id : String)
        → ("s" === id) ≡ false
        → find_account_by_id repositories id rows' ≡ find_account_by_id repositories id rows)
    × (r'' ≡ ok tt)
    × ((id : String)
        → find_account_by_id repositories id rows'' ≡ find_account_by_id repositories id rows')
unfolding add
withdraw_funds-visible_example =
    withdraw_funds-visible repositories repositories-RepositoryLaws 2 fresh wire "s" "u2" "eu" draw
      created (negsuc 19) (pos 50) 1 account store rows refl loads refl refl refl refl

abbrev ordering : Aggregate Account Payload
ordering = record account { state = record account.state { orders = some (order ∷ []) } }

abbrev order_store : MemoryStore Payload ℕ
order_store = record store {
  streams =
      some (λ key. some (created ∷ new_event 3 order_created "u3" "s" (order_data order) ∷ []));
}

abbrev with_order : Aggregate Account Payload
with_order = elim (merge_context (account_class 2 fresh) "s" order_store) [
  | ok a ↦ a
  | err e ↦ account
]

order_loads : merge_context (account_class 2 fresh) "s" order_store ≡ ok with_order
unfolding merge_context loaded read_from_stream apply_all apply construct set_commit_function
    account_class
order_loads = refl

order_held : with_order.state.orders ≡ some (record order { created_at = 2; updated_at = 2 } ∷ [])
unfolding merge_context loaded read_from_stream apply_all apply construct set_commit_function
    account_class
order_held = refl

on_order_created-rows_example :
    let (r, rows') = on_order_created repositories 2 fresh order_store "s" "o1" rows in
    let (r', rows'') = on_rollback_order_created repositories "o1" rows' in
    (r ≡ ok tt)
    × (get "o1" rows'.orders ≡ some (record order { created_at = 2; updated_at = 2 }))
    × (r' ≡ ok tt)
    × (get "o1" rows''.orders ≡ none)
    × ((j : String) → ("o1" === j) ≡ false → get j rows''.orders ≡ get j rows.orders)
on_order_created-rows_example =
    (on_order_created-rows repositories repositories-RepositoryLaws 2 fresh "s" "o1" with_order
        (record order { created_at = 2; updated_at = 2 } ∷ []) order_store rows order_loads
        order_held).0
      (record order { created_at = 2; updated_at = 2 }) refl

abbrev constructors : Dict (Option String → String → Message Body)
constructors = ("RollbackAccountCommand", rollback_account_command "r") ∷ []

abbrev ordered : Message Body
ordered = record (new_command order_created "e" [] account_domain (some "s") (order_body order)) {
  correlation_id = some "c1";
}

undone :
    rollback_sagas json memory_cache constructors "c1"
      (process json memory_cache (process_order_saga "u") ordered empty).1
    ≡ ok (rollback_account_command "r" (some "s") "c1" ∷ [])
unfolding rollback_sagas process run_steps remember add_to_set read_from_set memory_cache
    handle_add_to_set make_commands split_key before_colon after_colon json empty process_order_saga
undone = refl

process_order-rolled_back_example :
    let (made, s') = process json memory_cache (process_order_saga "u") ordered empty in
    (made ≡ ok (remove_inventory_command "u" "i" "o1" 2 ∷ []))
    × Among
        (rollback_account_command "r" (some "s") "c1")
        (rollback_account_command "r" (some "s") "c1" ∷ [])
unfolding after_colon
process_order-rolled_back_example =
    process_order-rolled_back json memory_cache constructors holds memory-SetLaws "c1" "s" "u" "r"
      order ordered empty (rollback_account_command "r" (some "s") "c1" ∷ []) refl refl refl refl
      refl refl undone

account_class-decorate_example :
    let metadata = decorate account_decorations [] in
    ((account_class 2 fresh).on_apply "FundsDepositedEvent"
      ≡ apply_method 2 (apply_handler "FundsDepositedEvent" metadata))
    × ((account_class 2 fresh).on_rollback "FundsDepositedEvent"
        ≡ rollback_method 2 fresh (rollback_handler "FundsDepositedEvent" metadata))
account_class-decorate_example = account_class-decorate 2 fresh "FundsDepositedEvent"
