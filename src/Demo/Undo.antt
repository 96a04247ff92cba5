-- ===== src/Demo/Undo.antt =====
-- The rollback of an order: account.aggregate.ts over aggregate-root.class.ts.
use mathlib.Core.List.{◌++◌ as append, append-nil, reverse}
use moirae.Base.{
  ℕ, String, ◌===◌, Bool, true, false, not, some, List, [], ◌∷◌, ◌≡◌, refl, arith, ◌∙◌, ap, select,
  select-append, eq_iff,
}
use moirae.Failure.{ok}
use moirae.Message.{Message}
use moirae.Aggregate.{Class, Aggregate, apply, apply_all, rollback, make_rollbacks, correlated}
use moirae.Aggregate.History.{handle, extended, placed, apply-outcome}
use moirae.Demo.Integers.{ℤ, negate}
use moirae.Demo.Account.{
  Account, Order, Payload, funds_data, order_data, id_data, account_class, sum, orders_of,
  new_event, order_created, funds_withdrawn, rollback_order_created, rollback_funds_withdrawn,
}

abbrev without : String → List Order → List Order
without id os = select (λ o. not (o.id === id)) os

module _ (now : ℕ) (fresh : String → String) where
  abbrev cls : Class Account Payload
  cls = account_class now fresh

  -- What the two events of an order make of the fields.
  abbrev ordered : Order → Account → Account
  ordered order s = record s {
    orders =
        some
          (append (orders_of s.orders) (record order { created_at = now; updated_at = now } ∷ []));
  }

  abbrev paid : ℤ → Account → Account
  paid funds s = record s { balance = sum s.balance funds }

  apply-as :
      (e : Message Payload) (back : Bool) (a : Aggregate Account Payload) (t : Account)
      → handle (account_class now fresh) e a.state ≡ ok t
      → apply (account_class now fresh) e back a
        ≡ (ok tt, extended (account_class now fresh) a e back t)
  unfolding account_class
  apply-as e back a t handled =
      apply-outcome (account_class now fresh) a e back ∙ ground (arith, handled)

  module _ (id : String) (o w : Message Payload) (order : Order) (funds : ℤ)
      (o_name : o.name ≡ order_created) (o_data : o.payload ≡ order_data order)
      (o_id : o.correlation_id ≡ some id) (w_name : w.name ≡ funds_withdrawn)
      (w_data : w.payload ≡ funds_data funds) (w_id : w.correlation_id ≡ some id) where
    -- The aggregate when both events are applied from its stream.
    placed_order :
        (a : Aggregate Account Payload)
        → apply_all (account_class now fresh) true (o ∷ w ∷ []) a ≡ (
          ok tt,
          let a₁ = extended (account_class now fresh) a o true (ordered order a.state) in
              extended (account_class now fresh) a₁ w true (paid funds a₁.state),
        )
    unfolding apply_all handle account_class
    placed_order a =
        let a₁ = extended (account_class now fresh) a o true (ordered order a.state) in
        let first = apply-as o true a (ordered order a.state) (rw (o_name, o_data) refl) in
        let next = apply-as w true a₁ (paid funds a₁.state) (rw (w_name, w_data) refl) in
        ground (arith, first, next)

    abbrev undo_w : Aggregate Account Payload → Message Payload
    undo_w a =
        record (new_event now rollback_funds_withdrawn (fresh w.uuid) a.stream_id
          (funds_data funds)) { correlation_id = some id }

    abbrev undo_o : Aggregate Account Payload → Message Payload
    undo_o a =
        record (new_event now rollback_order_created (fresh o.uuid) a.stream_id
          (id_data order.id)) { correlation_id = some id }

    made :
        (a b : Aggregate Account Payload)
        → make_rollbacks
            (account_class now fresh)
            id
            (placed (account_class now fresh) b w ∷ placed (account_class now fresh) b o ∷ [])
            a
          ≡ (ok (undo_w a ∷ undo_o a ∷ []), a)
    unfolding make_rollbacks account_class
    made a b = rw (w_name, w_data, o_name, o_data) refl

    without-append :
        (os : List Order)
        → without order.id os ≡ os
        → without order.id (append os (record order { created_at = now; updated_at = now } ∷ []))
          ≡ os
    without-append os unknown =
        select-append (λ x. not (x.id === order.id)) os
          (record order { created_at = now; updated_at = now } ∷ [])
        ∙ ground (arith, unknown, eq_iff order.id order.id, append-nil os)

    -- The fields after the two events that undo the order.
    undone :
        (a : Aggregate Account Payload) (s : Account)
        → without order.id (orders_of s.orders) ≡ orders_of s.orders
        → let a' : Aggregate Account Payload = record a { state = paid funds (ordered order s) } in
          (b : Aggregate Account Payload) × (apply_all
              (account_class now fresh)
              false
              (undo_w a' ∷ undo_o a' ∷ [])
              a'
            ≡ (ok tt, b))
          × (b.state ≡ record s {
            balance = sum (sum s.balance funds) (negate funds);
            orders = some (orders_of s.orders);
          })
    unfolding apply_all handle account_class
    undone a s unknown =
        let a' : Aggregate Account Payload = record a { state = paid funds (ordered order s) } in
        let t₁ : Account = record a'.state { balance = sum (sum s.balance funds) (negate funds) } in
        let a₁ = extended (account_class now fresh) a' (undo_w a') false t₁ in
        let t₂ : Account = record t₁ { orders = some (orders_of s.orders) } in
        let first = apply-as (undo_w a') false a' t₁ refl in
        let next = apply-as (undo_o a') false a₁ t₂ (
          ap (λ os. ok (record t₁ { orders = some os }))
            (without-append (orders_of s.orders) unknown)) in
        (
          extended (account_class now fresh) a₁ (undo_o a') false t₂,
          ground (arith, first, next),
          refl,
        )

    -- An account is loaded from a stream that ends with the two events of an order, with a correlation that
    -- no earlier event has and a new order id. The rollback of the correlation does not throw and undoes
    -- both events: the account has the name, the time and the orders from before the order, where orders that
    -- were not there are an empty list, and its balance is the one before with the amount of the withdrawal added
    -- and taken away again.
    pub rollback-order :
        (a : Aggregate Account Payload)
        → select (correlated id) a.event_history ≡ []
        → without order.id (orders_of a.state.orders) ≡ orders_of a.state.orders
        → let (r, a₂) = apply_all (account_class now fresh) true (o ∷ w ∷ []) a in
          let (r', a₃) = rollback (account_class now fresh) id a₂ in
          (r ≡ ok tt)
          × (r' ≡ ok 2)
          × (a₃.state ≡ record a.state {
            balance = sum (sum a.state.balance funds) (negate funds);
            orders = some (orders_of a.state.orders);
          })
    unfolding rollback
    rollback-order a earlier unknown =
        let a₁ = extended (account_class now fresh) a o true (ordered order a.state) in
        let a₂ = extended (account_class now fresh) a₁ w true (paid funds a₁.state) in
        let o' = placed (account_class now fresh) a o in
        let w' = placed (account_class now fresh) a₁ w in
        let two : select (correlated id) a₂.event_history ≡ o' ∷ w' ∷ [] =
          select-append (correlated id) (append a.event_history (o' ∷ [])) (w' ∷ [])
          ∙ ground (
            arith,
            select-append (correlated id) a.event_history (o' ∷ []),
            earlier,
            o_id,
            w_id,
            eq_iff id id,
          ) in
        let (b, ran, ends) = undone a₂ a.state unknown in
        let makes =
          ap (λ es. make_rollbacks (account_class now fresh) id (reverse es) a₂) two ∙ made a₂ a in
        let rolls : rollback (account_class now fresh) id a₂ ≡ (ok 2, b) =
          ground (arith, makes, ran) in
        rw (placed_order a) (refl, ap (λ p. p.0) rolls, ap (λ p. p.1.state) rolls ∙ ends)
