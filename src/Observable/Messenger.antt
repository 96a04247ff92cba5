-- ===== src/Observable/Messenger.antt =====
-- moirae/core/lib/messenger/messenger.service.ts, over an emitter of its own.
use moirae.Base.{ℕ, String, false, none, some, List, [], ◌∷◌, ◌++◌, ◌≡◌, arith, eq_iff}
use moirae.Base.Dict.{Dict, get, set, has, delete, get-set, delete-set_absent}
use moirae.Failure.{Result, ok, err, type_error}
use moirae.Observable.Emitter.{
  Emitter, add_listener, remove_listener, listeners, listeners-add, remove-add,
}

pub record Subscription : Type 0 where
  pub message : String
  pub handler : ℕ

pub record Messenger : Type 0 where
  pub ee : Emitter
  pub subscriptions : Dict Subscription

unfoldable pub construct : Messenger
construct = record { ee = []; subscriptions = [] }

unfoldable pub on : String → String → ℕ → Messenger → Messenger
on uuid message handler m = record {
  ee = add_listener message handler m.ee;
  subscriptions = set uuid (record { handler = handler; message = message }) m.subscriptions;
}

-- The handlers that are called with a message of this name.
unfoldable pub publish : String → Messenger → List ℕ
publish message m = listeners message m.ee

-- An unknown id has no fields to read.
unfoldable pub unsubscribe : String → Messenger → Result (Unit {0}) × Messenger
unsubscribe id m = elim (get id m.subscriptions) [
  | none ↦ (err type_error, m)
  | some s ↦ (
    ok tt,
    record {
      ee = remove_listener s.message s.handler m.ee;
      subscriptions = delete id m.subscriptions;
    },
  )
]

-- With a new id, a subscription adds its handler behind those of its message. Ending it gives back the very service
-- that was there before; there the id is unknown, and to end it once more throws.
pub unsubscribe-on :
    (uuid message : String) (handler : ℕ) (m : Messenger)
    → has uuid m.subscriptions ≡ false
    → (publish message (on uuid message handler m) ≡ publish message m ++ handler ∷ [])
      × (unsubscribe uuid (on uuid message handler m) ≡ (ok tt, m))
      × (unsubscribe uuid m ≡ (err type_error, m))
unfolding on publish unsubscribe
unsubscribe-on uuid message handler m new =
    let s : Subscription = record { handler = handler; message = message } in
    (
      ground (arith, listeners-add message message handler m.ee, eq_iff message message),
      ground (
        arith,
        get-set uuid uuid s m.subscriptions,
        eq_iff uuid uuid,
        remove-add message handler m.ee,
        delete-set_absent uuid s m.subscriptions new,
      ),
      ground arith,
    )
