-- ===== src/Demo/Committed.antt =====
-- The commit of a creation: create-inventory.handler.ts of demo/inventory/src/handlers, and the aggregate that
-- is loaded then.
use moirae.Base.{ℕ, String, ◌===◌, false, some, [], ◌∷◌, ◌≡◌, refl, ap, ◌∙◌, arith, inl, inr}
use moirae.Failure.{ok}
use moirae.Message.{Message}
use moirae.Aggregate.{Aggregate, apply, apply_all}
use moirae.Aggregate.History.{handle, extended, apply-outcome}
use moirae.Publisher.{Wire}
use moirae.Store.{MemoryStore, merge_context, save, read_from_stream}
use moirae.Store.Loading.{IsPayloadOnly, loaded-stream_id, loaded-updated_at}
use moirae.Store.RoundTrip.{save-merge_context}
use moirae.Demo.Integers.{ℤ}
use moirae.Demo.Account.{new_event}
use moirae.Demo.Inventory.{
  Inventory, InventoryPayload, inventory_data, inventory_created, inventory_class, Stock,
  create_and_commit,
}

inventory-IsPayloadOnly : IsPayloadOnly inventory_class
unfolding handle inventory_class
inventory-IsPayloadOnly e d s (n, u, t, p) = ground (arith, n, p)

-- What the first event of an inventory sets.
abbrev pub fields : ℕ → String → ℤ → ℤ → Inventory
fields now name price quantity = record {
  name = some name;
  quantity = some quantity;
  price = some price;
  created_at = some now;
}

apply-created :
    (now : ℕ) (uuid id name : String) (price quantity : ℤ)
    (a : Aggregate Inventory InventoryPayload)
    → let e = new_event now inventory_created uuid id (inventory_data now name price quantity) in
      apply inventory_class e false a
      ≡ (ok tt, extended inventory_class a e false (fields now name price quantity))
unfolding inventory_class handle
apply-created now uuid id name price quantity a =
    let e = new_event now inventory_created uuid id (inventory_data now name price quantity) in
    apply-outcome inventory_class a e false ∙ refl

module _ {R St : Type 0} (wire : Wire InventoryPayload R) where
  -- The aggregate that is loaded after the commit of a creation.
  pub committed :
      (now : ℕ) (uuid id name : String) (price quantity : ℤ) (draw : ℕ → String)
      (command : Message InventoryPayload) (a : Aggregate Inventory InventoryPayload)
      (s : Stock R St)
      → (id === "") ≡ false
      → merge_context inventory_class id s.store ≡ ok a
      → let e = new_event now inventory_created uuid id (inventory_data now name price quantity) in
        let (r, s') = create_and_commit wire a e draw command s in
        (r ≡ ok tt)
        × (c : Aggregate Inventory InventoryPayload) × (merge_context inventory_class id s'.store
            ≡ ok c)
        × (c.state ≡ fields now name price quantity)
  unfolding create_and_commit apply_all
  committed now uuid id name price quantity draw command a s named loads =
      let e = new_event now inventory_created uuid id (inventory_data now name price quantity) in
      let b = extended inventory_class a e false (fields now name price quantity) in
      let applied = apply-created now uuid id name price quantity a in
      let once : apply_all inventory_class false (e ∷ []) a ≡ (ok tt, b) =
        ground (arith, applied) in
      let (sent, r, _, c, again, st, _) =
        save-merge_context inventory_class wire id draw (some command) (e ∷ []) a b s.store
          inventory-IsPayloadOnly named (inr refl, tt) loads once in
      let saved : (create_and_commit wire a e draw command s).1.store
          ≡ (save wire draw (some command) b s.store).1 =
        ground (arith, applied) in
      (
        ground (arith, applied, r),
        c,
        ap (λ x. merge_context inventory_class id x) saved ∙ again,
        st,
      )

pub merged-stamped :
    {R : Type 0} (id : String) (s : MemoryStore InventoryPayload R)
    (c : Aggregate Inventory InventoryPayload) (name : String)
    → merge_context inventory_class id s ≡ ok c
    → c.state.name ≡ some name
    → (c.stream_id ≡ id) × (u : ℕ) × (c.updated_at ≡ some u)
unfolding merge_context inventory_class
merged-stamped id s c name loads has_name =
    let stamped : (u : ℕ) × (c.updated_at ≡ some u) =
      elim (loaded-updated_at inventory_class (read_from_stream id s) id c loads) [
        | inl start ↦ absurd (ground (arith, has_name, ap (λ x. x.name) start))
        | inr set ↦ set
      ] in
    (loaded-stream_id inventory_class (read_from_stream id s) id c loads, stamped.0, stamped.1)
