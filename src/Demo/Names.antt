-- ===== src/Demo/Names.antt =====
-- No two inventories of one name: demo/inventory/src/handlers/create-inventory.handler.ts over
-- `reserveValue` of aggregates and any cache that keeps the contract of `ICache`.
use moirae.Base.{ℕ, String, Bool, true, false, ◌≡◌, arith, ap, ◌∙◌}
use moirae.Failure.{ok, err}
use moirae.Message.{Message}
use moirae.Aggregate.{Aggregate}
use moirae.Cache.{Handles, Json, SetLaws}
use moirae.Cache.Reserve.{reserve_value, reserve_once}
use moirae.Publisher.{Wire}
use moirae.Store.{merge_context}
use moirae.Demo.Account.{new_event}
use moirae.Demo.Integers.{ℤ}
use moirae.Demo.Inventory.{
  Inventory, InventoryPayload, inventory_data, inventory_created, inventory_class, duplicate_name,
  Stock, class_name, create_and_commit, create_inventory,
}

module _ {R St : Type 0} (json : Json String) (sha1 : String → String) (cache : Handles St)
    (wire : Wire InventoryPayload R) (exists : String → Bool) where
  pub keeps_cache :
      (a : Aggregate Inventory InventoryPayload) (event : Message InventoryPayload)
      (draw : ℕ → String) (command : Message InventoryPayload) (s : Stock R St)
      → (create_and_commit wire a event draw command s).1.cache ≡ s.cache
  unfolding create_and_commit
  keeps_cache a event draw command s = ground arith

  module _ (holds : St → String → String → Bool) (laws : SetLaws cache holds) where
    -- Over a cache that keeps its contract, the first creation of inventory with a name that is not yet
    -- reserved and that the projection does not have reserves it, whether or not its commit succeeds then.
    -- A second creation with that name, for any stream that loads, is refused and stores nothing.
    pub create_inventory_twice :
        (now now' : ℕ) (uuid uuid' name stream_id stream_id' : String)
        (price price' quantity quantity' : ℤ) (draw draw' : ℕ → String)
        (command command' : Message InventoryPayload) (a b : Aggregate Inventory InventoryPayload)
        (s : Stock R St)
        → merge_context inventory_class stream_id s.store ≡ ok a
        → (reserve_value json sha1 cache class_name "name" name s.cache).0 ≡ true
        → exists name ≡ false
        → let s₁ =
            (create_inventory json sha1 cache wire exists now uuid name price quantity stream_id
              draw command s).1 in
          merge_context inventory_class stream_id' s₁.store ≡ ok b
          → let (r, s₂) =
              create_inventory json sha1 cache wire exists now' uuid' name price' quantity'
                stream_id' draw' command' s₁ in
            (r ≡ err duplicate_name) × (s₂.store ≡ s₁.store)
    unfolding create_inventory
    create_inventory_twice now now' uuid uuid' name stream_id stream_id' price price' quantity
          quantity' draw draw' command command' a b s loads free new loads' =
        let e =
          new_event now inventory_created uuid stream_id (inventory_data now name price quantity) in
        let c = (reserve_value json sha1 cache class_name "name" name s.cache).1 in
        let s₀ : Stock R St = record s { cache = c } in
        let s₁ =
          (create_inventory json sha1 cache wire exists now uuid name price quantity stream_id draw
            command s).1 in
        let (taken, released, free_again) =
          reserve_once json sha1 cache holds laws class_name "name" name s.cache in
        let runs : create_inventory json sha1 cache wire exists now uuid name price quantity
              stream_id draw command s
            ≡ create_and_commit wire a e draw command s₀ =
          ground (arith, loads, free, new) in
        let kept : s₁.cache ≡ c = ap (λ p. p.1.cache) runs ∙ keeps_cache a e draw command s₀ in
        let refused : (reserve_value json sha1 cache class_name "name" name s₁.cache).0 ≡ false =
          ap (λ z. (reserve_value json sha1 cache class_name "name" name z).0) kept ∙ taken in
        (ground (arith, loads', refused), ground (arith, loads', refused))
