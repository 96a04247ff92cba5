-- ===== src/Demo/Shelf.antt =====
-- The read side of demo/inventory/src: inventory.service.ts, projections/inventory.entity.ts, and
-- inventory-created.handler.ts, inventory-removed.handler.ts and find-inventory-by-id.handler.ts of handlers. The
-- repository of typeorm is a parameter.
use moirae.Base.{ℕ, String, ◌===◌, ◌==◌, if◌then◌else◌, not, Bool, false, Option, some, ◌≡◌}
use moirae.Failure.{ok, err, Action}
use moirae.Aggregate.{Aggregate}
use moirae.Cache.{Handles, Json}
use moirae.Cache.Reserve.{release_value}
use moirae.Store.{MemoryStore, merge_context}
use moirae.Demo.Integers.{ℤ}
use moirae.Demo.Inventory.{Inventory, InventoryPayload, inventory_class, class_name}

-- `toProjection` of an aggregate, and a row.
pub record InventoryProjection : Type 0 where
  pub id : String
  pub name : Option String
  pub quantity : Option ℤ
  pub price : Option ℤ
  pub created_at : Option ℕ
  pub updated_at : Option ℕ

pub record InventoryRow : Type 0 where
  pub id : String
  pub name : String
  pub quantity : ℤ
  pub price : ℤ
  pub created_at : ℕ
  pub updated_at : ℕ

abbrev pub inventory_projection : Aggregate Inventory InventoryPayload → InventoryProjection
inventory_projection a = record {
  id = a.stream_id;
  name = a.state.name;
  quantity = a.state.quantity;
  price = a.state.price;
  created_at = a.state.created_at;
  updated_at = a.updated_at;
}

-- The projection that has every column.
abbrev pub whole : InventoryRow → InventoryProjection
whole row = record {
  id = row.id;
  name = some row.name;
  quantity = some row.quantity;
  price = some row.price;
  created_at = some row.created_at;
  updated_at = some row.updated_at;
}

-- `findOne({ where: { id } })`, `count({ where: { name } })` and `save`
pub record InventoryRepository (Db : Type 0) : Type 0 where
  pub find_row : String → Db → Option InventoryRow
  pub count_named : String → Db → ℕ
  pub save_row : InventoryProjection → Action Db (Unit {0})

-- A projection with every column is inserted or updated by its id; what becomes of others is not spoken
-- of. A row that is found is counted.
pub record InventoryLaws {Db : Type 0} (t : InventoryRepository Db) : Type 0 where
  pub save_row-ok : (row : InventoryRow) (s : Db) → (t.save_row (whole row) s).0 ≡ ok tt
  pub find_row-save :
      (row : InventoryRow) (id : String) (s : Db)
      → t.find_row id (t.save_row (whole row) s).1
        ≡ (if row.id === id then some row else t.find_row id s)
  pub count_named-found :
      (row : InventoryRow) (id : String) (s : Db)
      → t.find_row id s ≡ some row
      → (t.count_named row.name s == 0) ≡ false

-- The rows, and the state of the cache of aggregates.
pub record Shelf (Db St : Type 0) : Type 0 where
  pub rows : Db
  pub cache : St

module _ {Db : Type 0} (t : InventoryRepository Db) where
  -- `nameExists`: `count > 0`
  unfoldable pub name_exists : Db → String → Bool
  name_exists s name = not (t.count_named name s == 0)

  -- `FindInventoryByIdHandler`, which answers `undefined` where there is no row
  unfoldable pub find_inventory_by_id : String → Db → Option InventoryRow
  find_inventory_by_id id s = t.find_row id s

  module _ {R : Type 0} (store : MemoryStore InventoryPayload R) where
    -- `InventoryRemovedHandler`, for the stream of the event
    unfoldable pub on_inventory_removed : String → Action Db (Unit {0})
    on_inventory_removed stream_id s = elim (merge_context inventory_class stream_id store) [
      | err e ↦ (err e, s)
      | ok a ↦ t.save_row (inventory_projection a) s
    ]

    module _ {St : Type 0} (json : Json String) (sha1 : Option String → String)
        (cache : Handles St) where
      -- `InventoryCreatedHandler`, for the stream of the event; the name may be `undefined`
      unfoldable pub on_inventory_created : String → Action (Shelf Db St) (Unit {0})
      on_inventory_created stream_id s = elim (merge_context inventory_class stream_id store) [
        | err e ↦ (err e, s)
        | ok a ↦
            let (r, rows) = t.save_row (inventory_projection a) s.rows in
            let released =
              (release_value json sha1 cache class_name "name" a.state.name s.cache).1 in
            elim r [
              | err e ↦ (err e, record s { rows = rows })
              | ok _ ↦ (ok tt, record { rows = rows; cache = released })
            ]
      ]
