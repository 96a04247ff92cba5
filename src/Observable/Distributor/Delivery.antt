-- ===== src/Observable/Distributor/Delivery.antt =====
-- Who receives what a distributor publishes.
use text.Mathlib.TextLemmas.{append_cancel_right}
use moirae.Base.{
  ℕ, suc, ◌-◌, ◌≤◌, String, ◌==◌, if◌then◌else◌, false, some, List, [], ◌∷◌, ◌≡◌, ◌≢◌, refl, arith,
  eq_iff, Option-cases, inl, inr,
}
use moirae.Base.Dict.{Dict, get, has, set, delete, IsMap, set-IsMap, delete-IsMap, delete_absent}
use moirae.Observable.Emitter.{
  Emitter, times, times-add, times-remove, listeners-add, listeners-remove_ne,
}
use moirae.Observable.Distributor.Defs.{
  Distributor, channel, listener_count, clear, subscribe, publish, unsubscribe,
}

-- How often a listener is subscribed.
abbrev pub held : ℕ → Dict ℕ → ℕ
held h [] = 0
held h ((k, g) ∷ m) = if g == h then suc (held h m) else held h m

held-set :
    (h g : ℕ) (k : String) (m : Dict ℕ)
    → has k m ≡ false
    → held h (set k g m) ≡ (if g == h then suc (held h m) else held h m)
held-set h g k [] new = refl
held-set h g k ((j, f) ∷ m) new = ground (arith, held-set h g k m)

pub held-pos : (g : ℕ) (k : String) (m : Dict ℕ) → get k m ≡ some g → 1 ≤ held g m
held-pos g k [] e = absurd (ground arith)
held-pos g k ((j, f) ∷ m) e = ground (arith, held-pos g k m)

held-delete :
    (h g : ℕ) (k : String) (m : Dict ℕ)
    → IsMap m
    → get k m ≡ some g
    → held h (delete k m) ≡ (if g == h then held h m - 1 else held h m)
held-delete h g k [] u e = absurd (ground arith)
held-delete h g k ((j, f) ∷ m) u e =
    ground (arith, held-delete h g k m u.1, delete_absent k m, held-pos g k m, eq_iff j k)

-- Every listener is registered as often as it is subscribed.
pub record InSync (d : Distributor) (ee : Emitter) : Type 0 where
  pub synced : (h : ℕ) → times (channel d) h ee ≡ held h d.subscriptions
  pub distinct : IsMap d.subscriptions

-- With a new key a subscription adds the one registration, and ending it takes that one away.
pub subscribe-InSync :
    (key : String) (g : ℕ) (d : Distributor) (ee : Emitter)
    → has key d.subscriptions ≡ false
    → InSync d ee
    → let (d', ee') = subscribe key g d ee in InSync d' ee'
unfolding subscribe channel
subscribe-InSync key g d ee new v = record {
  synced = λ h. ground (
    arith,
    v.synced h,
    times-add (channel d) (channel d) h g ee,
    held-set h g key d.subscriptions,
    eq_iff (channel d) (channel d),
  );
  distinct = set-IsMap key g d.subscriptions v.distinct;
}

pub unsubscribe-InSync :
    (key : String) (d : Distributor) (ee : Emitter)
    → InSync d ee
    → let (d', ee') = unsubscribe key d ee in InSync d' ee'
unfolding unsubscribe channel
unsubscribe-InSync key d ee v = elim (Option-cases (get key d.subscriptions)) [
  | inl e ↦ rw (e, unsubscribe) v
  | inr (g, e) ↦
      rw (e, unsubscribe)
        (record {
          synced = λ h. ground (
            arith,
            v.synced h,
            times-remove (channel d) (channel d) h g ee,
            held-delete h g key d.subscriptions v.distinct,
            eq_iff (channel d) (channel d),
          );
          distinct = delete-IsMap key d.subscriptions v.distinct;
        })
]

pub data Call : Type 0 where
  subscribes : String → ℕ → Call
  unsubscribes : String → Call

unfoldable pub step : Call → Distributor × Emitter → Distributor × Emitter
step (subscribes key g) (d, ee) = subscribe key g d ee
step (unsubscribes key) (d, ee) = unsubscribe key d ee

unfoldable pub run : List Call → Distributor × Emitter → Distributor × Emitter
run [] w = w
run (c ∷ calls) w = run calls (step c w)

-- Each subscription of a history takes a key that is not in use then, as `randomUUID` gives.
abbrev pub AreNew : List Call → Distributor × Emitter → Type 0
AreNew [] w = Unit
AreNew (subscribes key g ∷ calls) w =
    (has key w.0.subscriptions ≡ false) × AreNew calls (step (subscribes key g) w)
AreNew (unsubscribes key ∷ calls) w = AreNew calls (step (unsubscribes key) w)

-- Where each listener is registered with the emitter exactly as often as it is subscribed, that stays so
-- through any history of subscriptions with new keys and of their ends.
pub run-InSync :
    (calls : List Call) (d : Distributor) (ee : Emitter)
    → AreNew calls (d, ee)
    → InSync d ee
    → let (d', ee') = run calls (d, ee) in InSync d' ee'
unfolding run step
run-InSync [] d ee new v = v
run-InSync (subscribes key g ∷ calls) d ee new v =
    let (d', ee') = subscribe key g d ee in
    run-InSync calls d' ee' new.1 (subscribe-InSync key g d ee new.0 v)
run-InSync (unsubscribes key ∷ calls) d ee new v =
    let (d', ee') = unsubscribe key d ee in
    run-InSync calls d' ee' new (unsubscribe-InSync key d ee v)

channel-injective : (d e : Distributor) → channel d ≡ channel e → d.uuid ≡ e.uuid
unfolding channel
channel-injective d e h = append_cancel_right d.uuid e.uuid ":__dist-key__" h

-- Two distributors over one emitter do not hear one another: with different uuids, what is done to
-- one leaves the listeners of the other alone.
pub step_isolated :
    (c : Call) (d other : Distributor) (ee : Emitter)
    → d.uuid ≢ other.uuid
    → publish other (step c (d, ee)).1 ≡ publish other ee
unfolding step publish subscribe unsubscribe
step_isolated (subscribes key g) d other ee ne = ground (
  arith,
  listeners-add (channel other) (channel d) g ee,
  channel-injective d other,
  eq_iff (channel d) (channel other),
)
step_isolated (unsubscribes key) d other ee ne = elim (Option-cases (get key d.subscriptions)) [
  | inl e ↦ rw (e, unsubscribe)
  | inr (g, e) ↦
      rw (e, unsubscribe)
        (ground (
          arith,
          listeners-remove_ne (channel other) (channel d) g ee,
          channel-injective d other,
          eq_iff (channel d) (channel other),
        ))
]

-- After `clear` the distributor counts no listener, and yet a payload reaches the same listeners as
-- before, and no `unsubscribe` can end that.
pub clear_keeps_listeners :
    (d : Distributor) (ee : Emitter) (key : String)
    → (listener_count (clear d) ≡ 0)
      × (publish (clear d) ee ≡ publish d ee)
      × (unsubscribe key (clear d) ee ≡ (clear d, ee))
unfolding clear listener_count publish channel unsubscribe
clear_keeps_listeners d ee key = (refl, refl, refl)
