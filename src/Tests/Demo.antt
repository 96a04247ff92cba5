-- ===== src/Tests/Demo.antt =====
-- An account of the demo with a stored history.
use moirae.Base.{Bool, ℕ, String, true, false, none, some, List, [], ◌∷◌, ◌≡◌, refl}
use moirae.Failure.{ok, err}
use moirae.Message.{Message}
use moirae.Aggregate.{Aggregate, construct, apply, apply_all, set_commit_function, rollback}
use moirae.Publisher.{routed, not_ready, Wire}
use moirae.Store.{MemoryStore, merge_context, loaded, save, read_from_stream}
use moirae.Demo.Integers.{pos, negsuc, add, negate}
use moirae.Demo.Account.{
  Account, Order, Payload, account_data, funds_data, order_data, account_class, new_event,
  account_created, funds_withdrawn, order_created, sum,
}
use moirae.Demo.Handlers.{
  withdraw, withdraw_funds, is_below_zero, invalid_withdrawal, withdraw_funds-guard,
}
use moirae.Aggregate.Replay.{rebuild}
use moirae.Demo.Alike.{SameAccount}
use moirae.Demo.Repeated.{account-IsRepeatable, account-IsAtomic}
use moirae.Demo.Undo.{rollback-order}
use moirae.Cache.{add_to_set}
use moirae.Cache.Memory.{MemoryCache, memory_cache, holds, memory-SetLaws, empty, handle_add_to_set}
use moirae.Cache.Reserve.{reserve_value}
use moirae.Aggregate.{commit, uncommitted_event_history, stamp}
use moirae.Store.{append_to_stream, append_event, commit_events}
use moirae.Demo.Inventory.{
  Inventory, InventoryPayload, quantity_data, inventory_created, inventory_class, duplicate_name,
  Stock, create_and_commit, create_inventory,
}
use moirae.Demo.Names.{create_inventory_twice}
use moirae.Tests.Sample.{no_responses, json}

abbrev pub fresh : String → String
fresh uuid = uuid

-- A wire that only these examples use, which no theorem here asks anything of.
abbrev pub wire : Wire Payload ℕ
wire = record {
  serialize_event = λ e. e.uuid;
  parse_event = λ text. new_event 9 account_created text "s" (account_data (pos 0) 1 "eu");
  serialize_response = λ r. r.response_key;
  parse_response = λ text. record { payload = 0; response_key = text; routing_key = "n" };
}

abbrev pub created : Message Payload
created = new_event 1 account_created "u1" "s" (account_data (pos 50) 1 "eu")

abbrev pub store : MemoryStore Payload ℕ
store = record {
  streams = some (λ key. some (created ∷ []));
  publisher = record {
    node_id = "n";
    queue = none;
    status = not_ready;
    distributor = record { uuid = "d"; subscriptions = [] };
    ee = [];
    workers = [];
    running = [];
    delivered = [];
    response_map = no_responses;
  };
}

abbrev pub account : Aggregate Account Payload
account = record {
  stream_id = "s";
  state = record { name = some "eu"; balance = some (pos 50); created_at = some 1; orders = none };
  event_history = created ∷ [];
  last_committed_index = some 0;
  updated_at = some 1;
  commit_set = true;
}

pub loads : merge_context (account_class 2 fresh) "s" store ≡ ok account
unfolding merge_context loaded read_from_stream apply_all apply construct set_commit_function
    account_class
loads = refl

abbrev pub draw : ℕ → String
draw n = "q"

withdraw_funds-guard_example :
    let e = new_event 2 funds_withdrawn "u2" "s" (funds_data (negsuc 59)) in
    let a' = (withdraw 2 fresh e account).1 in
    let s' = withdraw_funds 2 fresh wire "s" (negsuc 59) "u2" draw created store in
    (a'.state.balance ≡ sum (some (pos 50)) (negsuc 59))
    × (is_below_zero (sum (some (pos 50)) (negsuc 59)) ≡ true
        → s' ≡ (err invalid_withdrawal, store))
    × (is_below_zero (sum (some (pos 50)) (negsuc 59)) ≡ false
        → s'.1 ≡ (save wire draw (some created) a' store).1)
    × (account.state.balance ≡ none → s'.1 ≡ (save wire draw (some created) a' store).1)
withdraw_funds-guard_example =
    withdraw_funds-guard 2 fresh wire "s" "u2" draw created (negsuc 59) account store loads

abbrev pub order : Order
order = record {
  id = "o1";
  account_id = "s";
  inventory_id = "i";
  cost = pos 20;
  quantity = 2;
  created_at = 0;
  updated_at = 0;
}

abbrev ordered : Message Payload
ordered = record (new_event 3 order_created "u3" "s" (order_data order)) {
  correlation_id = some "c1";
}

abbrev paid : Message Payload
paid = record (new_event 3 funds_withdrawn "u4" "s" (funds_data (negsuc 19))) {
  correlation_id = some "c1";
}

rollback-order_example :
    let (r, a₂) = apply_all (account_class 9 fresh) true (ordered ∷ paid ∷ []) account in
    let (r', a₃) = rollback (account_class 9 fresh) "c1" a₂ in
    (r ≡ ok tt) × (r' ≡ ok 2) × (a₃.state ≡ record account.state { orders = some [] })
unfolding add negate
rollback-order_example =
    rollback-order 9 fresh "c1" ordered paid order (negsuc 19) refl refl refl refl refl refl account
      refl refl

abbrev pub inventory_wire : Wire InventoryPayload ℕ
inventory_wire = record {
  serialize_event = λ e. e.uuid;
  parse_event = λ text. new_event 9 inventory_created text "s" (quantity_data (pos 0));
  serialize_response = λ r. r.response_key;
  parse_response = λ text. record { payload = 0; response_key = text; routing_key = "n" };
}

abbrev pub inventory_command : Message InventoryPayload
inventory_command = new_event 1 "CreateInventoryCommand" "c" "i" (quantity_data (pos 0))

abbrev pub stock : Stock ℕ MemoryCache
stock = record {
  store = record {
    streams = some (λ key. none);
    publisher = record {
      node_id = "n";
      queue = none;
      status = not_ready;
      distributor = record { uuid = "d"; subscriptions = [] };
      ee = [];
      workers = [];
      running = [];
      delivered = [];
      response_map = no_responses;
    };
  };
  cache = empty;
}

abbrev none_exists : String → Bool
none_exists name = false

abbrev pub loaded_inventory : String → Aggregate Inventory InventoryPayload
loaded_inventory id = record (construct inventory_class id) { commit_set = true }

abbrev stock₁ : Stock ℕ MemoryCache
stock₁ =
    (create_inventory json fresh memory_cache inventory_wire none_exists 1 "u1" "nails" (pos 3)
      (pos 9) "i1" draw inventory_command stock).1

pub inventory_loads : merge_context inventory_class "i1" stock.store ≡ ok (loaded_inventory "i1")
unfolding merge_context loaded read_from_stream apply_all set_commit_function construct
inventory_loads = refl

reserved :
    (reserve_value json fresh memory_cache "InventoryAggregate" "name" "nails" stock.cache).0 ≡ true
unfolding reserve_value add_to_set memory_cache handle_add_to_set empty json
reserved = refl

inventory_loads_again : merge_context inventory_class "i2" stock₁.store ≡ ok (loaded_inventory "i2")
unfolding merge_context loaded read_from_stream apply_all set_commit_function create_inventory
    create_and_commit save commit_events append_to_stream append_event apply inventory_class
    reserve_value add_to_set memory_cache handle_add_to_set empty json commit construct
    uncommitted_event_history routed stamp
inventory_loads_again = refl

create_inventory_twice_example :
    let (r, s₂) =
      create_inventory json fresh memory_cache inventory_wire none_exists 2 "u2" "nails"
        (pos 4)
        (pos 1)
        "i2"
        draw
        inventory_command
        stock₁ in
    (r ≡ err duplicate_name) × (s₂.store ≡ stock₁.store)
create_inventory_twice_example =
    create_inventory_twice json fresh memory_cache inventory_wire none_exists holds memory-SetLaws 1
      2 "u1" "u2" "nails" "i1" "i2" (pos 3) (pos 4) (pos 9) (pos 1) draw draw inventory_command
      inventory_command (loaded_inventory "i1") (loaded_inventory "i2") stock inventory_loads
      reserved refl inventory_loads_again

-- An event of an order, one that has no handler, and one behind it that is not applied.
abbrev history : List (Message Payload)
history =
    new_event 1 account_created "u1" "s" (account_data (pos 50) 1 "eu")
    ∷ ordered
    ∷ new_event 4 "AccountClosedEvent" "u5" "s" (funds_data (pos 0))
    ∷ paid
    ∷ []

rebuild_example :
    let a =
      (apply_all (account_class 2 fresh) false history (construct (account_class 2 fresh) "s")).1 in
    let (r, b) =
      apply_all
        (account_class 9 fresh)
        true
        a.event_history
        (construct (account_class 9 fresh) "s") in
    (r ≡ ok tt) × SameAccount a.state b.state
unfolding account_class
rebuild_example =
    rebuild (account_class 2 fresh) (account_class 9 fresh) SameAccount "s" "s" false history
      (refl, refl, refl, refl) (account-IsRepeatable 2 9 fresh fresh)
      (account-IsAtomic 2 9 fresh fresh)
