-- ===== src/Demo/Creation.antt =====
-- How an inventory comes to its row: create-inventory.handler.ts and inventory-created.handler.ts of
-- demo/inventory/src/handlers, one after the other.
use moirae.Base.{
  ℕ, String, ◌===◌, if◌then◌else◌, true, false, Option, some, ◌≡◌, refl, ap, ◌∙◌, arith,
}
use moirae.Failure.{Result, ok, err}
use moirae.Message.{Message}
use moirae.Aggregate.{Aggregate}
use moirae.Cache.{Handles, Json}
use moirae.Cache.Reserve.{reserve_value, release_value}
use moirae.Publisher.{Wire}
use moirae.Store.{MemoryStore, merge_context}
use moirae.Demo.Integers.{ℤ}
use moirae.Demo.Account.{new_event}
use moirae.Demo.Inventory.{
  Inventory, InventoryPayload, inventory_data, inventory_created, inventory_class, duplicate_name,
  Stock, class_name, create_and_commit, create_inventory,
}
use moirae.Demo.Names.{keeps_cache}
use moirae.Demo.Shelf.{
  InventoryRow, InventoryRepository, InventoryLaws, Shelf, inventory_projection, whole, name_exists,
  on_inventory_created,
}
use moirae.Demo.Committed.{committed, merged-stamped}

-- `sha1({ value })` of a name that is set.
abbrev pub digest : (Option String → String) → String → String
digest sha1 name = sha1 (some name)

module _ {R St Db : Type 0} (json : Json String) (sha1 : Option String → String)
    (cache : Handles St) (wire : Wire InventoryPayload R) (t : InventoryRepository Db) where
  -- The handler of the creation saves the row of the inventory and releases its name.
  on_inventory_created-saves :
      (row : InventoryRow) (c : Aggregate Inventory InventoryPayload)
      (store : MemoryStore InventoryPayload R) (s : Shelf Db St)
      → InventoryLaws t
      → merge_context inventory_class row.id store ≡ ok c
      → inventory_projection c ≡ whole row
      → let (r, s') = on_inventory_created t store json sha1 cache row.id s in
        (r ≡ ok tt)
        × (s'.rows ≡ (t.save_row (whole row) s.rows).1)
        × (s'.cache ≡ (release_value json sha1 cache class_name "name" (some row.name) s.cache).1)
  unfolding on_inventory_created
  on_inventory_created-saves row c store s laws loads full =
      let freed : Option String → St =
        λ name. (release_value json sha1 cache class_name "name" name s.cache).1 in
      let stored = ap (λ p. (t.save_row p s.rows).0) full ∙ laws.save_row-ok row s.rows in
      let after : Shelf Db St = record {
        rows = (t.save_row (inventory_projection c) s.rows).1;
        cache = freed c.state.name;
      } in
      let ran : on_inventory_created t store json sha1 cache row.id s ≡ (ok tt, after) =
        rw (loads, on_inventory_created, stored) refl in
      (
        ap (λ x. x.0) ran,
        ap (λ x. x.1.rows) ran ∙ ap (λ p. (t.save_row p s.rows).1) full,
        ap (λ x. x.1.cache) ran ∙ ap (λ p. freed p.name) full,
      )

  abbrev pub create :
      Db
      → ℕ
      → String
      → String
      → ℤ
      → ℤ
      → String
      → (ℕ → String)
      → Message InventoryPayload
      → Stock R St
      → Result (Unit {0}) × Stock R St
  create rows = create_inventory json (digest sha1) cache wire (name_exists t rows)

  -- A name that the projection has: its reservation is given back.
  pub create-refused :
      (now : ℕ) (uuid name id : String) (price quantity : ℤ) (draw : ℕ → String)
      (command : Message InventoryPayload) (b : Aggregate Inventory InventoryPayload) (rows : Db)
      (s : Stock R St)
      → merge_context inventory_class id s.store ≡ ok b
      → (reserve_value json (digest sha1) cache class_name "name" name s.cache).0 ≡ true
      → name_exists t rows name ≡ true
      → let (r, s') = create rows now uuid name price quantity id draw command s in
        (r ≡ err duplicate_name)
        × (s'.store ≡ s.store)
        × (s'.cache
            ≡ (release_value json
                (digest sha1)
                cache
                class_name
                "name"
                name
                (reserve_value json (digest sha1) cache class_name "name" name s.cache).1).1)
  unfolding create_inventory
  create-refused now uuid name id price quantity draw command b rows s loads free known = (
    ground (arith, loads, free, known),
    ground (arith, loads, free, known),
    ground (arith, loads, free, known),
  )

  -- A creation of a free name, and the handler of its event.
  pub create-shows :
      (now : ℕ) (uuid name id : String) (price quantity : ℤ) (draw : ℕ → String)
      (command : Message InventoryPayload) (a : Aggregate Inventory InventoryPayload) (rows : Db)
      (s : Stock R St)
      → InventoryLaws t
      → (id === "") ≡ false
      → merge_context inventory_class id s.store ≡ ok a
      → (reserve_value json (digest sha1) cache class_name "name" name s.cache).0 ≡ true
      → name_exists t rows name ≡ false
      → let (r, s₁) = create rows now uuid name price quantity id draw command s in
        let (r', shelf) =
          on_inventory_created t s₁.store json sha1 cache id
            (record { rows = rows; cache = s₁.cache }) in
        (r ≡ ok tt)
        × (r' ≡ ok tt)
        × (updated : ℕ) × ((other : String)
            → t.find_row other shelf.rows ≡ (
                if id === other
                then some (record {
                  id = id;
                  name = name;
                  quantity = quantity;
                  price = price;
                  created_at = now;
                  updated_at = updated;
                })
                else t.find_row other rows))
        × (shelf.cache
            ≡ (release_value json sha1 cache class_name "name"
                (some name)
                (reserve_value json (digest sha1) cache class_name "name" name s.cache).1).1)
  unfolding create_inventory
  create-shows now uuid name id price quantity draw command a rows s table named loads free new =
      let e = new_event now inventory_created uuid id (inventory_data now name price quantity) in
      let s₀ : Stock R St = record s {
        cache = (reserve_value json (digest sha1) cache class_name "name" name s.cache).1;
      } in
      let s₁ = (create rows now uuid name price quantity id draw command s).1 in
      let shelf₀ : Shelf Db St = record { rows = rows; cache = s₁.cache } in
      let runs : create rows now uuid name price quantity id draw command s
          ≡ create_and_commit wire a e draw command s₀ =
        ground (arith, loads, free, new) in
      let kept : s₁.cache ≡ s₀.cache =
        ap (λ p. p.1.cache) runs
        ∙ keeps_cache json (digest sha1) cache wire (name_exists t rows) a e draw command s₀ in
      let (r, c, again, st) =
        committed wire now uuid id name price quantity draw command a s₀ named loads in
      let again' : merge_context inventory_class id s₁.store ≡ ok c =
        ap (λ p. merge_context inventory_class id p.1.store) runs ∙ again in
      let (same, updated, stamp) = merged-stamped id s₁.store c name again' (ap (λ f. f.name) st) in
      let row : InventoryRow = record {
        id = id;
        name = name;
        quantity = quantity;
        price = price;
        created_at = now;
        updated_at = updated;
      } in
      let (r', stored, freed) =
        on_inventory_created-saves row c s₁.store shelf₀ table again'
          (ground (arith, same, st, stamp)) in
      (
        ap (λ p. p.0) runs ∙ r,
        r',
        updated,
        λ other. ap (λ x. t.find_row other x) stored ∙ table.find_row-save row other rows,
        freed ∙ ap (λ z. (release_value json sha1 cache class_name "name" (some name) z).1) kept,
      )
