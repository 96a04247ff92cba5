-- ===== src/Demo/Handlers.antt =====
-- The command handlers of demo/account/src/handlers: each loads the account, applies events to it,
-- and commits it.
use moirae.Base.{
  ℕ, String, if◌then◌else◌, Bool, true, false, Option, none, some, ◌≡◌, refl, arith, ◌∙◌, ap,
}
use moirae.Failure.{Error, ok, err, custom, Action, pure, throw_if, ◌>>=◌, ◌>>◌, gets}
use moirae.Message.{Message}
use moirae.Aggregate.{Aggregate, apply, rollback}
use moirae.Aggregate.History.{handle, extended, apply-outcome}
use moirae.Publisher.{Wire}
use moirae.Store.{MemoryStore, merge_context, save}
use moirae.Demo.Integers.{ℤ, pos, negate, times, is_negative}
use moirae.Demo.Account.{
  Account, Order, Payload, funds_data, account_data, order_data, account_class, sum, new_event,
  account_created, funds_withdrawn, funds_deposited, order_created,
}

-- `balance < 0`, which is false of `undefined` and of `NaN`
abbrev pub is_below_zero : Option ℤ → Bool
is_below_zero none = false
is_below_zero (some b) = is_negative b

abbrev pub invalid_withdrawal : Error
invalid_withdrawal = custom "InvalidWithdrawalAmountException"

module _ (now : ℕ) (fresh : String → String) where
  -- What `DepositFundsHandler` and `CreateAccountHandler` do between the load and the commit.
  unfoldable pub deposit : Message Payload → Action (Aggregate Account Payload) (Unit {0})
  deposit event = apply (account_class now fresh) event false

  unfoldable pub withdraw : Message Payload → Action (Aggregate Account Payload) (Unit {0})
  withdraw event = do
    apply (account_class now fresh) event false
    a ← gets λ a. a
    throw_if (is_below_zero a.state.balance) invalid_withdrawal

  unfoldable pub create_order :
      ℤ → Message Payload → Message Payload → Action (Aggregate Account Payload) (Unit {0})
  create_order cost order_created withdraw_funds = do
    apply (account_class now fresh) order_created false
    a ← gets λ a. a
    throw_if (is_below_zero (sum a.state.balance (negate cost))) invalid_withdrawal
    apply (account_class now fresh) withdraw_funds false

  unfoldable pub rollback_account : String → Action (Aggregate Account Payload) (Unit {0})
  rollback_account correlation_id = do
    n ← rollback (account_class now fresh) correlation_id
    pure tt

  -- An event of a class that has a handler, and data that it takes.
  pub apply-handled :
      (e : Message Payload) (a : Aggregate Account Payload) (t : Account)
      → handle (account_class now fresh) e a.state ≡ ok t
      → apply (account_class now fresh) e false a
        ≡ (ok tt, extended (account_class now fresh) a e false t)
  unfolding account_class
  apply-handled e a t handled =
      apply-outcome (account_class now fresh) a e false ∙ ground (arith, handled)

  pub handle-withdrawn :
      (e : Message Payload) (funds : ℤ) (t : Account)
      → e.name ≡ funds_withdrawn
      → e.payload ≡ funds_data funds
      → handle (account_class now fresh) e t ≡ ok (record t { balance = sum t.balance funds })
  unfolding handle account_class
  handle-withdrawn e funds t named filled = rw (named, filled) refl

  pub withdraw-eq :
      (e : Message Payload) (funds : ℤ) (a : Aggregate Account Payload)
      → e.name ≡ funds_withdrawn
      → e.payload ≡ funds_data funds
      → let b = sum a.state.balance funds in
        withdraw e a ≡ (
          if is_below_zero b then err invalid_withdrawal else ok tt,
          extended (account_class now fresh) a e false (record a.state { balance = b }),
        )
  unfolding withdraw
  withdraw-eq e funds a named filled =
      let t : Account = record a.state { balance = sum a.state.balance funds } in
      let applied = apply-handled e a t (handle-withdrawn e funds a.state named filled) in
      ground (arith, applied)

  module _ {R : Type 0} (wire : Wire Payload R) where
    -- `mergeContext`, then `act`, then `commit(command)`.
    unfoldable pub transact :
        String
        → Action (Aggregate Account Payload) (Unit {0})
        → (ℕ → String)
        → Message Payload
        → Action (MemoryStore Payload R) (Unit {0})
    transact account_id act draw command s =
        elim (merge_context (account_class now fresh) account_id s) [
          | err e ↦ (err e, s)
          | ok a ↦
              let (r, a') = act a in
              elim r [
                | err e ↦ (err e, s)
                | ok _ ↦
                    let (saved, s') = save wire draw (some command) a' s in
                    (elim saved [ ok events ↦ ok tt | err e ↦ err e ], s')
              ]
        ]

    -- `CreateAccountHandler`, for the stream that the bus gives
    unfoldable pub create_account :
        String
        → String
        → String
        → (ℕ → String)
        → Message Payload
        → Action (MemoryStore Payload R) (Unit {0})
    unfolding transact deposit
    create_account name uuid stream_id =
        transact stream_id
          (deposit (new_event now account_created uuid stream_id (account_data (pos 0) now name)))

    -- `DepositFundsHandler`
    unfoldable pub deposit_funds :
        String
        → ℤ
        → String
        → (ℕ → String)
        → Message Payload
        → Action (MemoryStore Payload R) (Unit {0})
    unfolding transact deposit
    deposit_funds account_id funds uuid =
        transact account_id
          (deposit (new_event now funds_deposited uuid account_id (funds_data funds)))

    -- `WithdrawFundsHandler`
    unfoldable pub withdraw_funds :
        String
        → ℤ
        → String
        → (ℕ → String)
        → Message Payload
        → Action (MemoryStore Payload R) (Unit {0})
    unfolding transact withdraw
    withdraw_funds account_id funds uuid =
        transact account_id
          (withdraw (new_event now funds_withdrawn uuid account_id (funds_data funds)))

    -- `CreateOrderHandler` from the price on that the query for the inventory gave.
    unfoldable pub place_order :
        ℤ
        → Order
        → String
        → String
        → (ℕ → String)
        → Message Payload
        → Action (MemoryStore Payload R) (Unit {0})
    unfolding transact create_order
    place_order price order uuid uuid' =
        let cost = times price order.quantity in
        transact order.account_id (
          create_order cost
            (new_event now order_created uuid order.account_id
              (order_data (record order { cost = cost })))
            (new_event now funds_withdrawn uuid' order.account_id (funds_data (negate cost))))

    -- `RollbackAccountHandler`
    unfoldable pub roll_back :
        String → String → (ℕ → String) → Message Payload → Action (MemoryStore Payload R) (Unit {0})
    unfolding transact rollback_account
    roll_back stream_id correlation_id = transact stream_id (rollback_account correlation_id)

    -- A withdrawal from an account that loads with a balance: the sum of the two decides. If it is below
    -- zero the handler throws and the store is as it was, and else the account that is committed has it as
    -- its balance. From an account with no balance, as one that was never created, the withdrawal is
    -- committed whatever the amount.
    pub withdraw_funds-guard :
        (account_id uuid : String) (draw : ℕ → String) (command : Message Payload) (funds : ℤ)
        (a : Aggregate Account Payload) (s : MemoryStore Payload R)
        → merge_context (account_class now fresh) account_id s ≡ ok a
        → let e = new_event now funds_withdrawn uuid account_id (funds_data funds) in
          let a' = (withdraw e a).1 in
          let s' = withdraw_funds account_id funds uuid draw command s in
          (a'.state.balance ≡ sum a.state.balance funds)
          × (is_below_zero (sum a.state.balance funds) ≡ true → s' ≡ (err invalid_withdrawal, s))
          × (is_below_zero (sum a.state.balance funds) ≡ false
              → s'.1 ≡ (save wire draw (some command) a' s).1)
          × (a.state.balance ≡ none → s'.1 ≡ (save wire draw (some command) a' s).1)
    unfolding transact withdraw_funds
    withdraw_funds-guard account_id uuid draw command funds a s loads =
        let eq =
          withdraw-eq (new_event now funds_withdrawn uuid account_id (funds_data funds)) funds a
            refl refl in
        (
          ap (λ p. p.1.state.balance) eq,
          λ below. ground (arith, loads, eq, below),
          λ above. ground (arith, loads, eq, above),
          λ unknown. ground (arith, loads, eq, unknown),
        )
