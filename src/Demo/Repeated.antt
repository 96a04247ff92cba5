-- ===== src/Demo/Repeated.antt =====
-- The events of demo/account/src/aggregates/account.aggregate.ts at two times, by the table of its handlers.
use moirae.Base.{
  ℕ, String, ◌===◌, if◌then◌else◌, Bool, true, false, Option, none, some, ◌≡◌, refl, ap, arith, inl,
  inr,
}
use moirae.Failure.{Result, Result-cases, Error, ok, err, unhandled_event, Action}
use moirae.Message.{Message}
use moirae.Aggregate.{checked}
use moirae.Aggregate.History.{handle, written}
use moirae.Aggregate.Replay.{IsRepeatable, IsAtomic}
use moirae.Demo.Account.{
  Account, Payload, account_class, on_apply, handle_account_created, handle_funds,
  handle_rollback_withdrawal, handle_create, handle_rollback_order_created, account_created,
  funds_deposited, funds_withdrawn, rollback_funds_withdrawn, order_created, rollback_order_created,
  funds_withdrawal_failed,
}
use moirae.Demo.Alike.{
  SameAccount, Repeats, OnPayload, created-OnPayload, funds-OnPayload, taken-OnPayload,
  create-OnPayload, orders-OnPayload,
}

abbrev Handler : Type 0
Handler = Message Payload → Action Account (Unit {0})

checked-Repeats :
    (f f' : Payload → Account → Result Account)
    → OnPayload f f'
    → Repeats (λ e. checked (f e.payload)) (λ e. checked (f' e.payload))
checked-Repeats f f' alike e id s t s' same ran = elim (Result-cases (f e.payload s)) [
  | inl (u, q) ↦
      let (t', ran', same') = alike e.payload s t s' same (ground (arith, q, ran)) in
      (t', ground (arith, ran'), same')
  | inr (x, q) ↦ absurd (ground (arith, q, ran))
]

abbrev Related : Option Handler → Option Handler → Type 0
Related none none = Unit
Related (some h) (some h') = Repeats h h'
Related _ _ = ⊥

abbrev Careful : Option Handler → Type 0
Careful none = Unit
Careful (some h) =
    (e : Message Payload) (s : Account) (x : Error) → (h e s).0 ≡ err x → (h e s).1 ≡ s

either_table :
    (b : Bool) (x y x' y' : Option Handler)
    → Related x x'
    → Related y y'
    → Related (if b then x else y) (if b then x' else y')
either_table true x y x' y' p q = p
either_table false x y x' y' p q = q

either_entry :
    (b : Bool) (x y : Option Handler) → Careful x → Careful y → Careful (if b then x else y)
either_entry true x y p q = p
either_entry false x y p q = q

checked-Careful :
    (f : Payload → Account → Result Account) → Careful (some (λ e. checked (f e.payload)))
checked-Careful f e s x threw = elim (Result-cases (f e.payload s)) [
  | inl (u, q) ↦ absurd (ground (arith, q, threw))
  | inr (x', q) ↦ ground (arith, q)
]

void-Repeats : Repeats (λ e s. (ok tt, s)) (λ e s. (ok tt, s))
void-Repeats e id s t s' same ran = (t, refl, ground (arith, same, ap (λ r. r.1) ran))

module _ (now now' : ℕ) where
  on_apply-Related : (n : String) → Related (on_apply now n) (on_apply now' n)
  on_apply-Related n =
      either_table (n === account_created) _ _ _ _
        (checked-Repeats handle_account_created handle_account_created created-OnPayload)
        (either_table (n === funds_deposited) _ _ _ _
          (checked-Repeats handle_funds handle_funds funds-OnPayload)
          (either_table (n === funds_withdrawn) _ _ _ _
            (checked-Repeats handle_funds handle_funds funds-OnPayload)
            (either_table (n === rollback_funds_withdrawn) _ _ _ _
              (checked-Repeats handle_rollback_withdrawal handle_rollback_withdrawal
                taken-OnPayload)
              (either_table (n === order_created) _ _ _ _
                (checked-Repeats (handle_create now) (handle_create now')
                  (create-OnPayload now now'))
                (either_table (n === rollback_order_created) _ _ _ _
                  (checked-Repeats handle_rollback_order_created handle_rollback_order_created
                    orders-OnPayload)
                  (either_table (n === funds_withdrawal_failed) _ _ _ _ void-Repeats tt))))))

  on_apply-Careful : (n : String) → Careful (on_apply now n)
  on_apply-Careful n =
      either_entry (n === account_created) _ _ (checked-Careful handle_account_created) (
        either_entry (n === funds_deposited) _ _ (checked-Careful handle_funds) (
          either_entry (n === funds_withdrawn) _ _ (checked-Careful handle_funds) (
            either_entry (n === rollback_funds_withdrawn) _ _
              (checked-Careful handle_rollback_withdrawal)
              (either_entry (n === order_created) _ _ (checked-Careful (handle_create now)) (
                either_entry (n === rollback_order_created) _ _
                  (checked-Careful handle_rollback_order_created)
                  (either_entry (n === funds_withdrawal_failed) _ _ (λ e s x threw. refl) tt))))))

-- What `apply` makes of an entry of the table.
abbrev called : Option Handler → Message Payload → Account → Result Account
called x e s = elim x [
  | none ↦ err (unhandled_event e.name)
  | some h ↦ elim (h e s).0 [ ok _ ↦ ok (h e s).1 | err x ↦ err x ]
]

abbrev left : Option Handler → Message Payload → Account → Account
left x e s = elim x [ none ↦ s | some h ↦ (h e s).1 ]

called-Related :
    (x x' : Option Handler) (e : Message Payload) (id : Option String) (s t s' : Account)
    → Related x x'
    → SameAccount s t
    → called x e s ≡ ok s'
    → (t' : Account) × (called x' (record e { stream_id = id }) t ≡ ok t') × SameAccount s' t'
called-Related none x' e id s t s' r same ran = absurd (ground (arith, ran))
called-Related (some h) none e id s t s' r same ran = elim r [ ]
called-Related (some h) (some h') e id s t s' r same ran = elim (Result-cases (h e s).0) [
  | inl (u, q) ↦
      let whole : h e s ≡ (ok tt, s') = ground (arith, q, ran) in
      let (t', ran', same') = r e id s t s' same whole in (t', ground (arith, ran'), same')
  | inr (x, q) ↦ absurd (ground (arith, q, ran))
]

left-Careful :
    (x : Option Handler) (e : Message Payload) (s : Account) (y : Error)
    → Careful x
    → called x e s ≡ err y
    → left x e s ≡ s
left-Careful none e s y careful threw = refl
left-Careful (some h) e s y careful threw = elim (Result-cases (h e s).0) [
  | inl (u, q) ↦ absurd (ground (arith, q, threw))
  | inr (x, q) ↦ careful e s x q
]

module _ (now now' : ℕ) (fresh fresh' : String → String) where
  -- The account handles its events again at any later time, with the same fields but for the times of
  -- orders.
  pub account-IsRepeatable :
      IsRepeatable (account_class now fresh) (account_class now' fresh') SameAccount
  unfolding handle account_class
  account-IsRepeatable e id s t s' same ran =
      called-Related (on_apply now e.name) (on_apply now' e.name) e id s t s'
        (on_apply-Related now now' e.name) same ran

  pub account-IsAtomic : IsAtomic (account_class now fresh) (account_class now' fresh') SameAccount
  unfolding handle written account_class
  account-IsAtomic e s x threw =
      left-Careful (on_apply now e.name) e s x (on_apply-Careful now now' e.name) threw
