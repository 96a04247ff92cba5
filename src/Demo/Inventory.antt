-- ===== src/Demo/Inventory.antt =====
-- demo/inventory/src: the aggregate, and the handlers that create and remove inventory. `exists` is what
-- the projection answers to `nameExists`; whole numbers stand for quantities and prices.
use moirae.Base.{ℕ, String, ◌===◌, if◌then◌else◌, Bool, false, not, Option, none, some}
use moirae.Failure.{Error, Result, ok, err, type_error, custom, Action}
use moirae.Message.{Message}
use moirae.Aggregate.{Class, Aggregate, apply, checked}
use moirae.Cache.{Handles, Json}
use moirae.Cache.Reserve.{reserve_value, release_value}
use moirae.Publisher.{Wire}
use moirae.Store.{MemoryStore, merge_context, save}
use moirae.Demo.Account.{new_event}
use moirae.Demo.Integers.{ℤ, add, negate, is_negative}

pub record Inventory : Type 0 where
  pub name : Option String
  pub quantity : Option ℤ
  pub price : Option ℤ
  pub created_at : Option ℕ

-- `$data` of the events.
pub data InventoryPayload : Type 0 where
  -- the time, the name, the price, the quantity
  inventory_data : ℕ → String → ℤ → ℤ → InventoryPayload
  quantity_data : ℤ → InventoryPayload
  -- the name, the price, the quantity, the message
  failed_data : String → ℤ → ℤ → String → InventoryPayload

abbrev pub inventory_created : String
inventory_created = "InventoryCreatedEvent"

abbrev pub inventory_removed : String
inventory_removed = "InventoryRemovedEvent"

abbrev pub inventory_created_failed : String
inventory_created_failed = "InventoryCreatedFailedEvent"

abbrev pub minus : Option ℤ → ℤ → Option ℤ
minus none n = none
minus (some q) n = some (add q (negate n))

abbrev pub handle_inventory_created : InventoryPayload → Inventory → Result Inventory
handle_inventory_created (inventory_data created_at name price quantity) s = ok (record {
  name = some name;
  quantity = some quantity;
  price = some price;
  created_at = some created_at;
})
handle_inventory_created _ s = err type_error

abbrev pub handle_remove : InventoryPayload → Inventory → Result Inventory
handle_remove (quantity_data n) s = ok (record s { quantity = minus s.quantity n })
handle_remove _ s = err type_error

abbrev pub on_event : String → Option (Message InventoryPayload → Action Inventory (Unit {0}))
on_event name =
    if name === inventory_created
    then some (λ e. checked (handle_inventory_created e.payload))
    else if name === inventory_removed
    then some (λ e. checked (handle_remove e.payload))
    else if name === inventory_created_failed
    then some (λ e s. (ok tt, s))
    else none

unfoldable pub inventory_class : Class Inventory InventoryPayload
inventory_class = record {
  initial = record { name = none; quantity = none; price = none; created_at = none };
  deleted = λ s. false;
  on_apply = on_event;
  on_rollback = λ name. none;
}

abbrev pub duplicate_name : Error
duplicate_name = custom "DuplicateInventoryNameException"

abbrev pub invalid_remove : Error
invalid_remove = custom "InvalidRemoveInventoryException"

-- `quantity < 0`, which is false of `undefined` and of `NaN`
abbrev pub is_short : Option ℤ → Bool
is_short none = false
is_short (some q) = is_negative q

-- The store of events, and the state of the cache of aggregates.
pub record Stock (R St : Type 0) : Type 0 where
  pub store : MemoryStore InventoryPayload R
  pub cache : St

abbrev pub saved : {A : Type 0} → Result A → Result (Unit {0})
saved (ok a) = ok tt
saved (err e) = err e

module _ {R St : Type 0} (wire : Wire InventoryPayload R) where
  -- `aggregate.apply(event); await aggregate.commit(command)`
  unfoldable pub create_and_commit :
      Aggregate Inventory InventoryPayload
      → Message InventoryPayload
      → (ℕ → String)
      → Message InventoryPayload
      → Action (Stock R St) (Unit {0})
  create_and_commit a event draw command s =
      let (r, a') = apply inventory_class event false a in
      elim r [
        | err e ↦ (err e, s)
        | ok _ ↦
            let (r', s') = save wire draw (some command) a' s.store in
            (saved r', record s { store = s' })
      ]

module _ {R : Type 0} (wire : Wire InventoryPayload R) where
  -- `RemoveInventoryHandler`
  unfoldable pub remove_inventory :
      ℕ
      → String
      → String
      → ℤ
      → (ℕ → String)
      → Message InventoryPayload
      → Action (MemoryStore InventoryPayload R) (Unit {0})
  remove_inventory now uuid inventory_id quantity draw command s =
      elim (merge_context inventory_class inventory_id s) [
        | err e ↦ (err e, s)
        | ok a ↦
            let (r, a') =
              apply inventory_class
                (new_event now inventory_removed uuid a.stream_id (quantity_data quantity)) false
                a in
            elim r [
              | err e ↦ (err e, s)
              | ok _ ↦
                  if is_short a'.state.quantity
                  then (err invalid_remove, s)
                  else (let (r', s') = save wire draw (some command) a' s in (saved r', s'))
            ]
      ]

abbrev pub class_name : String
class_name = "InventoryAggregate"

module _ {R St : Type 0} (json : Json String) (sha1 : String → String) (cache : Handles St)
    (wire : Wire InventoryPayload R) (exists : String → Bool) where
  -- `CreateInventoryHandler`
  unfoldable pub create_inventory :
      ℕ
      → String
      → String
      → ℤ
      → ℤ
      → String
      → (ℕ → String)
      → Message InventoryPayload
      → Action (Stock R St) (Unit {0})
  unfolding create_and_commit
  create_inventory now uuid name price quantity stream_id draw command s =
      elim (merge_context inventory_class stream_id s.store) [
        | err e ↦ (err e, s)
        | ok a ↦
            let (reserved, c) = reserve_value json sha1 cache class_name "name" name s.cache in
            let s₁ : Stock R St = record s { cache = c } in
            if not reserved
            then (err duplicate_name, s₁)
            else if exists name
            then (
              err duplicate_name,
              record s { cache = (release_value json sha1 cache class_name "name" name c).1 },
            )
            else create_and_commit wire a
                (new_event now inventory_created uuid stream_id
                  (inventory_data now name price quantity))
                draw command s₁
      ]
