-- ===== src/Observable/StateTracker.antt =====
-- moirae/core/lib/classes/state-tracker.class.ts. `await` is split: what it finds at once, and the
-- listener that it leaves behind.
use Prim.Native.String.{◌++◌}
use moirae.Base.{
  ℕ, suc, ◌-◌, String, ◌===◌, if◌then◌else◌, Bool, false, none, some, List, [], ◌≡◌, arith, eq_iff,
}
use moirae.Base.Dict.{Dict, get, set, get-set}
use moirae.Observable.Emitter.{
  Emitter, add_listener, remove_listener, listeners, times, times-add, times-remove,
}

pub record StateTracker (T : Type 0) : Type 0 where
  pub state : T
  pub uuid : String
  pub subscriptions : Dict ℕ

-- What `await` gives: a settled promise, or the key of a subscription.
pub data Awaited (T : Type 0) : Type 0 where
  settled : T → Awaited T
  waiting : String → Awaited T

module _ {T : Type 0} where
  unfoldable pub construct : T → String → StateTracker T
  construct initial uuid = record { state = initial; uuid = uuid; subscriptions = [] }

  -- `get _key()`
  unfoldable pub channel : StateTracker T → String
  channel t = t.uuid ++ ":__state-updated__"

  -- The listeners that are called, with the new state.
  unfoldable pub set_state : T → StateTracker T → Emitter → StateTracker T × List ℕ
  unfolding channel
  set_state new t ee = (record t { state = new }, listeners (channel t) ee)

  unfoldable pub subscribe : String → ℕ → StateTracker T → Emitter → StateTracker T × Emitter
  unfolding channel
  subscribe key handler t ee = (
    record t { subscriptions = set key handler t.subscriptions },
    add_listener (channel t) handler ee,
  )

  -- The key stays in the map of subscriptions.
  unfoldable pub unsubscribe : String → StateTracker T → Emitter → Emitter
  unfolding channel
  unsubscribe key t ee = elim (get key t.subscriptions) [
    | none ↦ ee
    | some handler ↦ remove_listener (channel t) handler ee
  ]

  unfoldable pub await :
      (T → T → Bool)
      → String
      → ℕ
      → T
      → StateTracker T
      → Emitter
      → Awaited T × StateTracker T × Emitter
  unfolding subscribe
  await eq key handler desired t ee =
      if eq t.state desired
      then (settled t.state, t, ee)
      else (waiting key, (subscribe key handler t ee).0, (subscribe key handler t ee).1)

  subscribe-times :
      (key : String) (h : ℕ) (t : StateTracker T) (ee : Emitter)
      → times (channel t) h (subscribe key h t ee).1 ≡ suc (times (channel t) h ee)
  unfolding subscribe channel
  subscribe-times key h t ee =
      ground (arith, times-add (channel t) (channel t) h h ee, eq_iff (channel t) (channel t))

  unsubscribe-times :
      (key : String) (h : ℕ) (t : StateTracker T) (ee : Emitter)
      → get key t.subscriptions ≡ some h
      → times (channel t) h (unsubscribe key t ee) ≡ times (channel t) h ee - 1
  unfolding unsubscribe channel
  unsubscribe-times key h t ee e =
      ground (arith, times-remove (channel t) (channel t) h h ee, eq_iff (channel t) (channel t))

  -- A listener that is not registered is subscribed under two different keys. When the subscription of
  -- the first key is ended twice, no registration of the listener is left, though the second key was
  -- never unsubscribed and is still known.
  pub unsubscribe_twice :
      (k j : String) (h : ℕ) (t : StateTracker T) (ee : Emitter)
      → (k === j) ≡ false
      → times (channel t) h ee ≡ 0
      → let (t₁, ee₁) = subscribe k h t ee in
        let (t₂, ee₂) = subscribe j h t₁ ee₁ in
        let ee₃ = unsubscribe k t₂ (unsubscribe k t₂ ee₂) in
        (times (channel t₂) h ee₃ ≡ 0) × (get j t₂.subscriptions ≡ some h)
  unfolding subscribe channel
  unsubscribe_twice k j h t ee ne z =
      let m = t.subscriptions in
      let (t₁, ee₁) = subscribe k h t ee in
      let (t₂, ee₂) = subscribe j h t₁ ee₁ in
      let at_k : get k t₂.subscriptions ≡ some h =
        ground
          (arith, get-set j k h (set k h m), get-set k k h m, eq_iff k k, eq_iff j k, eq_iff k j) in
      (
        omega (
          arith,
          subscribe-times k h t ee,
          subscribe-times j h t₁ ee₁,
          unsubscribe-times k h t₂ ee₂ at_k,
          unsubscribe-times k h t₂ (unsubscribe k t₂ ee₂) at_k,
        ),
        ground (arith, get-set j j h (set k h m), eq_iff j j),
      )
