-- ===== src/Demo/Alike.antt =====
-- The methods of demo/account/src/aggregates/account.aggregate.ts that handle events, at two times: only the
-- times of orders, which `handleCreate` reads from the clock, tell the results apart.
use mathlib.Core.List.{◌++◌ as append}
use moirae.Base.{
  ℕ, String, ◌===◌, not, Option, none, some, List, [], ◌∷◌, map, ◌≡◌, refl, sym, ap, ◌∙◌, arith,
  select, Option-cases, inl, inr,
}
use moirae.Failure.{Result, ok, Action}
use moirae.Message.{Message}
use moirae.Demo.Integers.{negate}
use moirae.Demo.Account.{
  Account, Order, Payload, account_data, funds_data, order_data, id_data, sum, orders_of,
  handle_account_created, handle_funds, handle_rollback_withdrawal, handle_create,
  handle_rollback_order_created,
}

abbrev untimed : Order → Order
untimed o = record o { created_at = 0; updated_at = 0 }

abbrev untimed_all : Option (List Order) → Option (List Order)
untimed_all none = none
untimed_all (some os) = some (map untimed os)

-- The fields but for the times of orders.
abbrev pub SameAccount : Account → Account → Type 0
SameAccount s t =
    (s.name ≡ t.name)
    × (s.balance ≡ t.balance)
    × (s.created_at ≡ t.created_at)
    × (untimed_all s.orders ≡ untimed_all t.orders)

-- What a method does, it does later too.
abbrev pub Repeats :
    (Message Payload → Action Account (Unit {0}))
    → (Message Payload → Action Account (Unit {0}))
    → Type 0
Repeats h h' =
    (e : Message Payload) (id : Option String) (s t s' : Account)
    → SameAccount s t
    → h e s ≡ (ok tt, s')
    → (t' : Account) × (h' (record e { stream_id = id }) t ≡ (ok tt, t')) × SameAccount s' t'

abbrev pub OnPayload :
    (Payload → Account → Result Account) → (Payload → Account → Result Account) → Type 0
OnPayload f f' =
    (p : Payload) (s t s' : Account)
    → SameAccount s t
    → f p s ≡ ok s'
    → (t' : Account) × (f' p t ≡ ok t') × SameAccount s' t'

pub created-OnPayload : OnPayload handle_account_created handle_account_created
created-OnPayload (account_data b c n) s t s' same ran = (
  record t { balance = some b; created_at = some c; name = some n },
  refl,
  ground (arith, ran, same),
)
created-OnPayload (funds_data f) s t s' same ran = absurd (ground (arith, ran))
created-OnPayload (order_data o) s t s' same ran = absurd (ground (arith, ran))
created-OnPayload (id_data i) s t s' same ran = absurd (ground (arith, ran))

pub funds-OnPayload : OnPayload handle_funds handle_funds
funds-OnPayload (funds_data f) s t s' same ran =
    (record t { balance = sum t.balance f }, refl, ground (arith, ran, same))
funds-OnPayload (account_data b c n) s t s' same ran = absurd (ground (arith, ran))
funds-OnPayload (order_data o) s t s' same ran = absurd (ground (arith, ran))
funds-OnPayload (id_data i) s t s' same ran = absurd (ground (arith, ran))

map-append :
    {A B : Type 0} (f : A → B) (xs ys : List A)
    → map f (append xs ys) ≡ append (map f xs) (map f ys)
map-append f [] ys = refl
map-append f (x ∷ xs) ys = ap (λ l. f x ∷ l) (map-append f xs ys)

untimed-orders_of :
    (o o' : Option (List Order))
    → untimed_all o ≡ untimed_all o'
    → map untimed (orders_of o) ≡ map untimed (orders_of o')
untimed-orders_of none none h = refl
untimed-orders_of none (some os) h = absurd (ground (arith, h))
untimed-orders_of (some os) none h = absurd (ground (arith, h))
untimed-orders_of (some os) (some os') h = ground (arith, h)

untimed-select :
    (i : String) (os : List Order)
    → map untimed (select (λ o. not (o.id === i)) os)
      ≡ select (λ o. not (o.id === i)) (map untimed os)
untimed-select i [] = refl
untimed-select i (o ∷ os) = ground (arith, untimed-select i os)

pub taken-OnPayload : OnPayload handle_rollback_withdrawal handle_rollback_withdrawal
taken-OnPayload (funds_data f) s t s' same ran =
    (record t { balance = sum t.balance (negate f) }, refl, ground (arith, ran, same))
taken-OnPayload (account_data b c n) s t s' same ran = absurd (ground (arith, ran))
taken-OnPayload (order_data o) s t s' same ran = absurd (ground (arith, ran))
taken-OnPayload (id_data i) s t s' same ran = absurd (ground (arith, ran))

pub create-OnPayload : (now now' : ℕ) → OnPayload (handle_create now) (handle_create now')
create-OnPayload now now' (order_data o) s t s' same ran =
    let at : ℕ → List Order = λ n. record o { created_at = n; updated_at = n } ∷ [] in
    let orders : map untimed (append (orders_of s.orders) (at now))
        ≡ map untimed (append (orders_of t.orders) (at now')) =
      map-append untimed (orders_of s.orders) (at now)
      ∙ ap (λ l. append l (map untimed (at now))) (untimed-orders_of s.orders t.orders same.3)
      ∙ sym (map-append untimed (orders_of t.orders) (at now')) in
    (
      record t { orders = some (append (orders_of t.orders) (at now')) },
      refl,
      ground (arith, ran, same, orders),
    )
create-OnPayload now now' (account_data b c n) s t s' same ran = absurd (ground (arith, ran))
create-OnPayload now now' (funds_data f) s t s' same ran = absurd (ground (arith, ran))
create-OnPayload now now' (id_data i) s t s' same ran = absurd (ground (arith, ran))

kept_orders :
    (i : String) (o o' : Option (List Order)) (os : List Order)
    → untimed_all o ≡ untimed_all o'
    → o ≡ some os
    → (os' : List Order) × (o' ≡ some os')
      × (map untimed (select (λ x. not (x.id === i)) os)
          ≡ map untimed (select (λ x. not (x.id === i)) os'))
kept_orders i none o' os h e = absurd (ground (arith, e))
kept_orders i (some xs) none os h e = absurd (ground (arith, h))
kept_orders i (some xs) (some ys) os h e =
    let both : map untimed os ≡ map untimed ys = ground (arith, h, e) in
    (
      ys,
      refl,
      untimed-select i os ∙ ap (select (λ x. not (x.id === i))) both ∙ sym (untimed-select i ys),
    )

pub orders-OnPayload : OnPayload handle_rollback_order_created handle_rollback_order_created
orders-OnPayload (id_data i) s t s' same ran = elim (Option-cases s.orders) [
  | inl e ↦ absurd (ground (arith, e, ran))
  | inr (os, e) ↦
      let (os', e', eq) = kept_orders i s.orders t.orders os same.3 e in
      (
        record t { orders = some (select (λ o. not (o.id === i)) os') },
        ground (arith, e'),
        ground (arith, ran, e, same, eq),
      )
]
orders-OnPayload (account_data b c n) s t s' same ran = absurd (ground (arith, ran))
orders-OnPayload (funds_data f) s t s' same ran = absurd (ground (arith, ran))
orders-OnPayload (order_data o) s t s' same ran = absurd (ground (arith, ran))
