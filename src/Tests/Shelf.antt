-- ===== src/Tests/Shelf.antt =====
-- Rows of inventory in a database of one table.
use moirae.Base.{
  ℕ, suc, String, ◌===◌, ◌==◌, if◌then◌else◌, true, false, Option, none, some, [], ◌∷◌, ◌≡◌, refl,
  arith, eq_iff,
}
use moirae.Base.Dict.{Dict, get, set, get-set}
use moirae.Failure.{ok, err, plain, Action}
use moirae.Aggregate.{
  construct, apply, apply_all, set_commit_function, commit, uncommitted_event_history, stamp,
}
use moirae.Cache.{add_to_set}
use moirae.Cache.Memory.{MemoryCache, memory_cache, holds, memory-SetLaws, empty, handle_add_to_set}
use moirae.Cache.Reserve.{reserve_value}
use moirae.Publisher.{routed}
use moirae.Store.{
  merge_context, loaded, save, read_from_stream, append_to_stream, append_event, commit_events,
}
use moirae.Demo.Integers.{pos}
use moirae.Demo.Inventory.{
  inventory_class, duplicate_name, class_name, Stock, create_and_commit, create_inventory,
}
use moirae.Demo.Shelf.{
  InventoryRow, InventoryProjection, InventoryRepository, InventoryLaws, Shelf, name_exists,
  find_inventory_by_id, on_inventory_created,
}
use moirae.Demo.Creation.{create, digest}
use moirae.Demo.Kept.{create_inventory-kept}
use moirae.Tests.Sample.{json}
use moirae.Tests.Demo.{
  draw, inventory_wire, inventory_command, stock, loaded_inventory, inventory_loads,
}

abbrev count_named : String → Dict InventoryRow → ℕ
count_named name [] = 0
count_named name ((k, row) ∷ rows) =
    let n = count_named name rows in if row.name === name then suc n else n

count_named-get :
    (row : InventoryRow) (id : String) (rows : Dict InventoryRow)
    → get id rows ≡ some row
    → (count_named row.name rows == 0) ≡ false
count_named-get row id [] h = absurd (cc)
count_named-get row id ((k, r) ∷ rows) h =
    ground (arith, eq_iff r.name row.name, count_named-get row id rows, h)

abbrev save_row : InventoryProjection → Action (Dict InventoryRow) (Unit {0})
save_row p rows = elim p.name [
  | none ↦ (err plain, rows)
  | some n ↦ elim p.quantity [
    | none ↦ (err plain, rows)
    | some q ↦ elim p.price [
      | none ↦ (err plain, rows)
      | some x ↦ elim p.created_at [
        | none ↦ (err plain, rows)
        | some c ↦ elim p.updated_at [
          | none ↦ (err plain, rows)
          | some u ↦ (
            ok tt,
            set p.id
                (record {
                  id = p.id;
                  name = n;
                  quantity = q;
                  price = x;
                  created_at = c;
                  updated_at = u;
                })
                rows,
          )
        ]
      ]
    ]
  ]
]

abbrev repository : InventoryRepository (Dict InventoryRow)
repository = record {
  find_row = λ id rows. get id rows;
  count_named = count_named;
  save_row = save_row;
}

repository-InventoryLaws : InventoryLaws repository
repository-InventoryLaws = record {
  save_row-ok = λ row s. refl;
  find_row-save = λ row id s. get-set row.id id row s;
  count_named-found = λ row id s h. count_named-get row id s h;
}

abbrev sha1 : Option String → String
sha1 none = "undefined"
sha1 (some name) = name

abbrev stock₁ : Stock ℕ MemoryCache
stock₁ =
    (create json sha1 memory_cache inventory_wire repository [] 1 "u1" "nails" (pos 3) (pos 9) "i1"
      draw inventory_command stock).1

abbrev shelf : Shelf (Dict InventoryRow) MemoryCache
shelf =
    (on_inventory_created repository stock₁.store json sha1 memory_cache "i1"
      (record { rows = []; cache = stock₁.cache })).1

free :
    (reserve_value json (digest sha1) memory_cache class_name "name" "nails" stock.cache).0 ≡ true
unfolding reserve_value add_to_set memory_cache handle_add_to_set empty json
free = refl

unknown : name_exists repository [] "nails" ≡ false
unfolding name_exists
unknown = refl

later_loads : merge_context inventory_class "i2" stock₁.store ≡ ok (loaded_inventory "i2")
unfolding merge_context loaded read_from_stream apply_all set_commit_function create_inventory
    create_and_commit save commit_events append_to_stream append_event apply inventory_class
    reserve_value add_to_set memory_cache handle_add_to_set empty json commit construct
    uncommitted_event_history routed stamp name_exists
later_loads = refl

create_inventory-kept_example :
    let (r'', s₂) =
      create json sha1 memory_cache inventory_wire repository shelf.rows 2 "u2" "nails"
        (pos 4)
        (pos 1)
        "i2"
        draw
        inventory_command
        (record stock₁ { cache = shelf.cache }) in
    ((create json sha1 memory_cache inventory_wire repository [] 1 "u1" "nails"
        (pos 3)
        (pos 9)
        "i1"
        draw
        inventory_command
        stock).0
      ≡ ok tt)
    × ((on_inventory_created repository stock₁.store json sha1 memory_cache "i1"
          (record { rows = []; cache = stock₁.cache })).0
        ≡ ok tt)
    × (updated : ℕ) × ((other : String)
        → find_inventory_by_id repository other shelf.rows ≡ (
            if "i1" === other
            then some (record {
              id = "i1";
              name = "nails";
              quantity = pos 9;
              price = pos 3;
              created_at = 1;
              updated_at = updated;
            })
            else find_inventory_by_id repository other []))
    × (r'' ≡ err duplicate_name)
    × (s₂.store ≡ stock₁.store)
    × ((reserve_value json (digest sha1) memory_cache class_name "name" "nails" s₂.cache).0 ≡ true)
create_inventory-kept_example =
    create_inventory-kept json sha1 memory_cache inventory_wire repository holds memory-SetLaws
      repository-InventoryLaws 1 2 "u1" "u2" "nails" "i1" "i2" (pos 3) (pos 4) (pos 9) (pos 1) draw
      draw inventory_command inventory_command (loaded_inventory "i1") (loaded_inventory "i2") []
      stock refl inventory_loads free unknown later_loads
