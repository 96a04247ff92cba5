-- ===== src/Demo/Kept.antt =====
-- The name of an inventory, from its reservation to its row: create-inventory.handler.ts and
-- inventory-created.handler.ts of demo/inventory/src/handlers, and a later creation with that name.
use moirae.Base.{
  ℕ, String, ◌===◌, if◌then◌else◌, Bool, true, false, Option, some, ◌≡◌, ap, ◌∙◌, arith, eq_iff,
}
use moirae.Failure.{ok, err}
use moirae.Message.{Message}
use moirae.Aggregate.{Aggregate}
use moirae.Cache.{Handles, Json, SetLaws}
use moirae.Cache.Reserve.{reserve_value, release_value, reserve_once}
use moirae.Publisher.{Wire}
use moirae.Store.{merge_context}
use moirae.Demo.Integers.{ℤ}
use moirae.Demo.Inventory.{
  Inventory, InventoryPayload, inventory_class, duplicate_name, Stock, class_name,
}
use moirae.Demo.Shelf.{
  InventoryRow, InventoryRepository, InventoryLaws, Shelf, name_exists, find_inventory_by_id,
  on_inventory_created,
}
use moirae.Demo.Creation.{create, digest, create-shows, create-refused}

module _ {R St Db : Type 0} (json : Json String) (sha1 : Option String → String)
    (cache : Handles St) (wire : Wire InventoryPayload R) (t : InventoryRepository Db)
    (holds : St → String → String → Bool) (laws : SetLaws cache holds)
    (table : InventoryLaws t) where
  -- An inventory of a new name is created and its event is handled. The creation is committed, the query
  -- answers with the inventory and otherwise as before. A later creation with that name, for any stream
  -- that loads, is refused though its name is no longer reserved; it stores nothing and leaves the name
  -- free to be reserved.
  pub create_inventory-kept :
      (now now' : ℕ) (uuid uuid' name id id' : String) (price price' quantity quantity' : ℤ)
      (draw draw' : ℕ → String) (command command' : Message InventoryPayload)
      (a b : Aggregate Inventory InventoryPayload) (rows : Db) (s : Stock R St)
      → (id === "") ≡ false
      → merge_context inventory_class id s.store ≡ ok a
      → (reserve_value json (digest sha1) cache class_name "name" name s.cache).0 ≡ true
      → name_exists t rows name ≡ false
      → let (r, s₁) =
          create json sha1 cache wire t rows now uuid name price quantity id draw command s in
        let (r', shelf) =
          on_inventory_created t s₁.store json sha1 cache id
            (record { rows = rows; cache = s₁.cache }) in
        merge_context inventory_class id' s₁.store ≡ ok b
        → let (r'', s₂) =
            create json sha1 cache wire t shelf.rows now' uuid' name price' quantity' id' draw'
              command'
              (record s₁ { cache = shelf.cache }) in
          (r ≡ ok tt)
          × (r' ≡ ok tt)
          × (updated : ℕ) × ((other : String)
              → find_inventory_by_id t other shelf.rows ≡ (
                  if id === other
                  then some (record {
                    id = id;
                    name = name;
                    quantity = quantity;
                    price = price;
                    created_at = now;
                    updated_at = updated;
                  })
                  else find_inventory_by_id t other rows))
          × (r'' ≡ err duplicate_name)
          × (s₂.store ≡ s₁.store)
          × ((reserve_value json (digest sha1) cache class_name "name" name s₂.cache).0 ≡ true)
  unfolding name_exists find_inventory_by_id reserve_value release_value
  create_inventory-kept now now' uuid uuid' name id id' price price' quantity quantity' draw draw'
        command command' a b rows s named loads free new loads' =
      let s₁ =
        (create json sha1 cache wire t rows now uuid name price quantity id draw command s).1 in
      let shelf₀ : Shelf Db St = record { rows = rows; cache = s₁.cache } in
      let shelf = (on_inventory_created t s₁.store json sha1 cache id shelf₀).1 in
      let (r, r', updated, finds, freed) =
        create-shows json sha1 cache wire t now uuid name id price quantity draw command a rows s
          table named loads free new in
      let row : InventoryRow = record {
        id = id;
        name = name;
        quantity = quantity;
        price = price;
        created_at = now;
        updated_at = updated;
      } in
      let found : t.find_row id shelf.rows ≡ some row = finds id ∙ ground (arith, eq_iff id id) in
      let counted = table.count_named-found row id shelf.rows found in
      let (_, _, anew) =
        reserve_once json sha1 cache holds laws class_name "name" (some name) s.cache in
      let unreserved : (reserve_value json (digest sha1) cache class_name "name" name shelf.cache).0
          ≡ true =
        ap (λ z. (reserve_value json (digest sha1) cache class_name "name" name z).0) freed
        ∙ anew in
      let (refused, unchanged, back) =
        create-refused json sha1 cache wire t now' uuid' name id' price' quantity' draw' command' b
          shelf.rows (record s₁ { cache = shelf.cache }) loads' unreserved
          (ground (arith, counted)) in
      let (_, _, reopened) =
        reserve_once json (digest sha1) cache holds laws class_name "name" name shelf.cache in
      (
        r,
        r',
        updated,
        finds,
        refused,
        unchanged,
        ap (λ z. (reserve_value json (digest sha1) cache class_name "name" name z).0) back
            ∙ reopened,
      )
