-- ===== src/Demo/Decorated.antt =====
-- The decorators of demo/account/src/aggregates/account.aggregate.ts, through
-- moirae/core/lib/decorators.
use moirae.Base.{
  ℕ, String, ◌===◌, Bool-cases, false, ◌⊎◌, inl, inr, All, if◌then◌else◌, Option, none, some, List,
  [], ◌∷◌, ◌≡◌, refl, arith, eq_iff,
}
use moirae.Failure.{ok, Action}
use moirae.Message.{Message}
use moirae.Aggregate.{Aggregate, checked}
use moirae.Registry.Decorators.{
  Decoration, on_apply, on_rollback, decorate, apply_handler, rollback_handler, decorate-handlers,
  last_apply, last_rollback,
}
use moirae.Demo.Account.{
  Account, Payload, account_class, account_created, funds_deposited, funds_withdrawn,
  rollback_funds_withdrawn, order_created, rollback_order_created, funds_withdrawal_failed,
  handle_account_created, handle_funds, handle_rollback_withdrawal, handle_create,
  handle_rollback_order_created, create_rollback_funds_withdrawn, create_rollback_order_created,
}

-- The decorated methods of `AccountAggregate`, in the order of the class.
abbrev pub account_decorations : List Decoration
account_decorations =
    on_apply account_created "handleAccountCreated"
    ∷ on_apply funds_deposited "handleDeposit"
    ∷ on_apply funds_withdrawn "handleWithdrawal"
    ∷ on_rollback funds_withdrawn "createRollbackFundsWithdrawnEvent"
    ∷ on_apply rollback_funds_withdrawn "handleRollbackWithdrawal"
    ∷ on_apply order_created "handleCreate"
    ∷ on_rollback order_created "createRollbackOrderCreated"
    ∷ on_apply rollback_order_created "handleRollbackOrderCreated"
    ∷ on_apply funds_withdrawal_failed "void"
    ∷ []

-- `this[handlerName]`
abbrev pub apply_method : ℕ → Option String → Option (Message Payload → Action Account (Unit {0}))
apply_method now none = none
apply_method now (some name) =
    if name === "handleAccountCreated"
    then some (λ e. checked (handle_account_created e.payload))
    else if name === "handleDeposit"
    then some (λ e. checked (handle_funds e.payload))
    else if name === "handleWithdrawal"
    then some (λ e. checked (handle_funds e.payload))
    else if name === "handleRollbackWithdrawal"
    then some (λ e. checked (handle_rollback_withdrawal e.payload))
    else if name === "handleCreate"
    then some (λ e. checked (handle_create now e.payload))
    else if name === "handleRollbackOrderCreated"
    then some (λ e. checked (handle_rollback_order_created e.payload))
    else if name === "void"
    then some (λ e s. (ok tt, s))
    else none

abbrev known_events : List String
known_events =
    account_created ∷ funds_deposited ∷ funds_withdrawn ∷ rollback_funds_withdrawn ∷ order_created
    ∷ rollback_order_created ∷ funds_withdrawal_failed ∷ []

abbrev IsAmong : String → List String → Type 0
IsAmong event [] = ⊥
IsAmong event (n ∷ ns) = (event ≡ n) ⊎ IsAmong event ns

abbrev Differs : String → String → Type 0
Differs event name = (event === name ≡ false) × (name === event ≡ false)

known_or_other :
    (event : String) (names : List String)
    → IsAmong event names ⊎ All (λ name. Differs event name) names
known_or_other event [] = inr tt
known_or_other event (n ∷ ns) = elim (Bool-cases (event === n)) [
  | inl same ↦ inl (inl ((eq_iff event n).0 same))
  | inr other ↦
      let differs : Differs event n =
        (other, ground (arith, other, eq_iff event n, eq_iff n event)) in
      elim (known_or_other event ns) [
        | inl among ↦ inl (inr among)
        | inr rest ↦ inr (differs, rest)
      ]
]

module _ (now : ℕ) (fresh : String → String) where
  abbrev pub rollback_method :
      Option String
      → Option (Message Payload → Action (Aggregate Account Payload) (Message Payload))
  rollback_method none = none
  rollback_method (some name) =
      if name === "createRollbackFundsWithdrawnEvent"
      then some (create_rollback_funds_withdrawn now fresh)
      else if name === "createRollbackOrderCreated"
      then some (create_rollback_order_created now fresh)
      else none

  -- The two tables of the class at an event.
  abbrev Agrees : String → Type 0
  Agrees event =
      ((account_class now fresh).on_apply event
        ≡ apply_method now (last_apply event account_decorations))
      × ((account_class now fresh).on_rollback event
          ≡ rollback_method (last_rollback event account_decorations))

  tables_of_known : (event : String) → IsAmong event known_events → Agrees event
  unfolding account_class
  tables_of_known event (inl e) = rw e (refl, refl)
  tables_of_known event (inr (inl e)) = rw e (refl, refl)
  tables_of_known event (inr (inr (inl e))) = rw e (refl, refl)
  tables_of_known event (inr (inr (inr (inl e)))) = rw e (refl, refl)
  tables_of_known event (inr (inr (inr (inr (inl e))))) = rw e (refl, refl)
  tables_of_known event (inr (inr (inr (inr (inr (inl e)))))) = rw e (refl, refl)
  tables_of_known event (inr (inr (inr (inr (inr (inr (inl e))))))) = rw e (refl, refl)
  tables_of_known event (inr (inr (inr (inr (inr (inr (inr none_left))))))) = elim none_left [ ]

  tables_of_other : (event : String) → All (λ name. Differs event name) known_events → Agrees event
  unfolding account_class
  tables_of_other event (a, (b, (c, (d, (e, (f, (g, _))))))) = (
    rw (a.0, b.0, c.0, d.0, e.0, f.0, g.0) (rw (a.1, b.1, c.1, d.1, e.1, f.1, g.1) refl),
    rw (c.0, e.0) (rw (c.1, e.1) refl),
  )

  -- The account handles an event, and undoes it, by the very methods that its decorators name for it.
  pub account_class-decorate :
      (event : String)
      → let metadata = decorate account_decorations [] in
        ((account_class now fresh).on_apply event ≡ apply_method now (apply_handler event metadata))
        × ((account_class now fresh).on_rollback event
            ≡ rollback_method (rollback_handler event metadata))
  account_class-decorate event =
      let (a, r) = decorate-handlers account_decorations event in
      let agrees : Agrees event = elim (known_or_other event known_events) [
        | inl among ↦ tables_of_known event among
        | inr other ↦ tables_of_other event other
      ] in
      (rw a agrees.0, rw r agrees.1)
