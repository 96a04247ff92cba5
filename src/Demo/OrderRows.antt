-- ===== src/Demo/OrderRows.antt =====
-- The rows of orders in demo/account/src/order: what the handlers of the two events leave.
use moirae.Base.{
  ℕ, String, ◌===◌, true, false, Bool-cases, inl, inr, none, some, List, [], ◌∷◌, ◌≡◌, refl, ◌∙◌,
  arith, eq_iff,
}
use moirae.Failure.{Error, ok, err}
use moirae.Aggregate.{Aggregate}
use moirae.Store.{MemoryStore, merge_context}
use moirae.Demo.Account.{Account, Order, Payload, account_class}
use moirae.Demo.Projection.{
  Repositories, RepositoryLaws, on_order_created, on_rollback_order_created, remove, find_by_id,
}

find_by_id-id :
    (id : String) (os : List Order) (o : Order) → find_by_id id os ≡ some o → o.id === id ≡ true
find_by_id-id id [] o h = absurd (cc)
find_by_id-id id (x ∷ os) o h = elim (Bool-cases (x.id === id)) [
  | inl same ↦ ground (arith, same)
  | inr other ↦ find_by_id-id id os o (ground (arith, other))
]

removed :
    {St : Type 0} (t : Repositories St) (id : String) (rows : St)
    → on_rollback_order_created t id rows ≡ t.remove_order (t.find_order id rows) rows
unfolding on_rollback_order_created remove
removed t id rows = refl

module _ {St : Type 0} (t : Repositories St) (laws : RepositoryLaws t) (now : ℕ)
    (fresh : String → String) {R : Type 0} where
  saved_order :
      (stream_id id : String) (a : Aggregate Account Payload) (os : List Order)
      (s : MemoryStore Payload R) (rows : St)
      → merge_context (account_class now fresh) stream_id s ≡ ok a
      → a.state.orders ≡ some os
      → on_order_created t now fresh s stream_id id rows ≡ t.save_order (find_by_id id os) rows
  unfolding on_order_created
  saved_order stream_id id a os s rows loads has = rw (loads, on_order_created) (rw has refl)

  -- The events of an order and of its rollback are handled in this order. If the account still has the
  -- order when the first is handled, its row is there then and is gone after the second, and the rows of
  -- other orders are as before. If the rollback was committed before the first event is handled, both
  -- handlers throw, and the rows are as before.
  pub on_order_created-rows :
      (stream_id id : String) (a : Aggregate Account Payload) (os : List Order)
      (s : MemoryStore Payload R) (rows : St)
      → merge_context (account_class now fresh) stream_id s ≡ ok a
      → a.state.orders ≡ some os
      → let (r, rows') = on_order_created t now fresh s stream_id id rows in
        let (r', rows'') = on_rollback_order_created t id rows' in
        ((o : Order)
          → find_by_id id os ≡ some o
          → (r ≡ ok tt)
            × (t.find_order id rows' ≡ some o)
            × (r' ≡ ok tt)
            × (t.find_order id rows'' ≡ none)
            × ((j : String) → (id === j) ≡ false → t.find_order j rows'' ≡ t.find_order j rows))
        × (find_by_id id os ≡ none
            → t.find_order id rows ≡ none
            → (e : Error) × (r ≡ err e)
              × (rows' ≡ rows)
              × (e' : Error) × (r' ≡ err e')
              × (rows'' ≡ rows))
  on_order_created-rows stream_id id a os s rows loads has =
      let eq = saved_order stream_id id a os s rows loads has in
      rw eq (
        λ o found.
            let same = find_by_id-id id os o found in
            let rows' = (t.save_order (some o) rows).1 in
            let there : t.find_order id rows' ≡ some o =
              laws.find_order-save o id rows ∙ rw same refl in
            rw (found, removed t id rows', there)
              (
                laws.save_order-ok o rows,
                refl,
                laws.remove_order-ok o rows',
                laws.find_order-remove o id rows' ∙ rw same refl,
                λ j other. ground (
                  arith,
                  laws.find_order-remove o j rows',
                  laws.find_order-save o j rows,
                  (eq_iff o.id id).0 same,
                  other,
                ),
              ),
        λ late absent.
            let (e, h) = laws.save_order-none rows in
            let (e', h') = laws.remove_order-none rows in
            rw (late, h, removed t id rows, absent, h') (e, refl, refl, e', refl, refl),
      )
