-- ===== src/AsyncMap/Wake.antt =====
-- A value that is set wakes those who wait for its key, and nobody else.
use mathlib.Core.Path.{subst}
use moirae.Base.{
  ℕ, String, ◌===◌, ◌==◌, if◌then◌else◌, true, false, none, some, List, [], ◌∷◌, ◌≡◌, arith, eq_iff,
  Option-cases, Bool-cases, inl, inr,
}
use moirae.Base.Dict.{Dict, get, get-set, get-delete}
use moirae.Base.Dict
use moirae.Failure.{ok}
use moirae.Observable.Emitter.{member, member-listeners}
use moirae.Observable.Distributor
use moirae.Observable.Distributor.Delivery.{held-pos}
use moirae.AsyncMap.Defs.{AsyncMap, Waiter, waiter_of, hear, hear_all, set, resume}
use moirae.AsyncMap.Live.{Live, waiter_of_eq, waiter_of-none, hear-Live, with_map-Live}

module _ {T : Type 0} where
  waiter_of_own :
      (i : String) (w : Waiter) (m : AsyncMap T)
      → Live m
      → get i m.waiting ≡ some w
      → waiter_of w.listener m.waiting ≡ some (i, w)
  waiter_of_own i w m v there = elim (Option-cases (waiter_of w.listener m.waiting)) [
    | inl e ↦ absurd (waiter_of-none m.waiting i w there e)
    | inr ((j, x), e) ↦
        let (same, here) = waiter_of_eq w.listener m.waiting j x v.distinct e in
        ground (arith, e, same, here, there, v.own j i x w)
  ]

  hear-hit :
      (i key : String) (value : T) (w : Waiter) (m : AsyncMap T)
      → Live m
      → get i m.waiting ≡ some w
      → w.key ≡ key
      → let m' = hear w.listener key value m in
        (get i m'.waiting ≡ none) × (get i m'.resolved ≡ some (key, value))
  unfolding hear
  hear-hit i key value w m v there for_key = ground (
    arith,
    waiter_of_own i w m v there,
    eq_iff w.key key,
    eq_iff i i,
    for_key,
    get-delete i i m.waiting,
    get-set i i (key, value) m.resolved,
  )

  hear-miss :
      (l : ℕ) (i key : String) (value : T) (w : Waiter) (m : AsyncMap T)
      → Live m
      → get i m.waiting ≡ some w
      → (if w.listener == l then w.key === key else false) ≡ false
      → get i (hear l key value m).waiting ≡ some w
  unfolding hear
  hear-miss l i key value w m v there other = elim (Option-cases (waiter_of l m.waiting)) [
    | inl e ↦ ground (arith, e)
    | inr ((j, x), e) ↦
        ground (
          arith,
          e,
          waiter_of_eq l m.waiting j x v.distinct e,
          eq_iff j i,
          get-delete j i m.waiting,
        )
  ]

  -- A call that is no longer at its `await` is left alone.
  hear_all-resolved :
      (ls : List ℕ) (i key : String) (value : T) (r : String × T) (m : AsyncMap T)
      → Live m
      → get i m.waiting ≡ none
      → get i m.resolved ≡ some r
      → let m' = hear_all ls key value m in (get i m'.waiting ≡ none) × (get i m'.resolved ≡ some r)
  unfolding hear_all hear
  hear_all-resolved [] i key value r m v gone done = (gone, done)
  hear_all-resolved (l ∷ ls) i key value r m v gone done =
      elim (Option-cases (waiter_of l m.waiting)) [
        | inl e ↦
            hear_all-resolved ls i key value r (hear l key value m) (hear-Live l key value m v)
              (ground (arith, e, gone)) (ground (arith, e, done))
        | inr ((j, x), e) ↦
            let next = hear-Live l key value m v in
            hear_all-resolved ls i key value r (hear l key value m) next
              (ground (arith, e, gone, get-delete j i m.waiting))
              (ground (
                arith,
                e,
                gone,
                done,
                waiter_of_eq l m.waiting j x v.distinct e,
                eq_iff j i,
                get-set j i (key, value) m.resolved,
              ))
      ]

  hear_all-hit :
      (ls : List ℕ) (i key : String) (value : T) (w : Waiter) (m : AsyncMap T)
      → Live m
      → get i m.waiting ≡ some w
      → w.key ≡ key
      → member w.listener ls ≡ true
      → let m' = hear_all ls key value m in
        (get i m'.waiting ≡ none) × (get i m'.resolved ≡ some (key, value))
  unfolding hear_all
  hear_all-hit [] i key value w m v there for_key on = absurd (ground arith)
  hear_all-hit (l ∷ ls) i key value w m v there for_key on = elim (Bool-cases (w.listener == l)) [
    | inl e ↦
        let same : w.listener ≡ l = ground (arith, e) in
        let (gone, done) = hear-hit i key value w m v there for_key in
        hear_all-resolved ls i key value (key, value) (hear l key value m)
          (hear-Live l key value m v)
          (subst (λ k. get i (hear k key value m).waiting ≡ none) same gone)
          (subst (λ k. get i (hear k key value m).resolved ≡ some (key, value)) same done)
    | inr e ↦
        hear_all-hit ls i key value w (hear l key value m) (hear-Live l key value m v)
          (hear-miss l i key value w m v there (ground (arith, e))) for_key (ground (arith, e, on))
  ]

  hear_all-other :
      (ls : List ℕ) (i key : String) (value : T) (w : Waiter) (m : AsyncMap T)
      → Live m
      → get i m.waiting ≡ some w
      → (w.key === key) ≡ false
      → get i (hear_all ls key value m).waiting ≡ some w
  unfolding hear_all
  hear_all-other [] i key value w m v there other = there
  hear_all-other (l ∷ ls) i key value w m v there other =
      hear_all-other ls i key value w (hear l key value m) (hear-Live l key value m v)
        (hear-miss l i key value w m v there (ground (arith, other))) other

  hear_all-unresolved :
      (ls : List ℕ) (i key : String) (value : T) (m : AsyncMap T)
      → Live m
      → get i m.waiting ≡ none
      → get i m.resolved ≡ none
      → get i (hear_all ls key value m).resolved ≡ none
  unfolding hear_all hear
  hear_all-unresolved [] i key value m v gone idle = idle
  hear_all-unresolved (l ∷ ls) i key value m v gone idle =
      elim (Option-cases (waiter_of l m.waiting)) [
        | inl e ↦
            hear_all-unresolved ls i key value (hear l key value m) (hear-Live l key value m v)
              (ground (arith, e, gone)) (ground (arith, e, idle))
        | inr ((j, x), e) ↦
            hear_all-unresolved ls i key value (hear l key value m) (hear-Live l key value m v)
              (ground (arith, e, gone, get-delete j i m.waiting))
              (ground (
                arith,
                e,
                gone,
                idle,
                waiter_of_eq l m.waiting j x v.distinct e,
                eq_iff j i,
                get-set j i (key, value) m.resolved,
              ))
      ]

  -- A set resolves no call that does not wait.
  pub set-unresolved :
      (i key : String) (value : T) (m : AsyncMap T)
      → Live m
      → get i m.waiting ≡ none
      → get i m.resolved ≡ none
      → get i (set key value m).resolved ≡ none
  unfolding set
  set-unresolved i key value m v gone idle =
      hear_all-unresolved (Distributor.publish m.distributor m.ee) i key value
        (record m { map = Dict.set key value m.map }) (with_map-Live (Dict.set key value m.map) m v)
        gone idle

  -- The distributor calls the listener of a waiter.
  is_called :
      (i : String) (w : Waiter) (m : AsyncMap T)
      → Live m
      → get i m.waiting ≡ some w
      → member w.listener (Distributor.publish m.distributor m.ee) ≡ true
  unfolding Distributor.publish
  is_called i w m v there = member-listeners (Distributor.channel m.distributor) w.listener m.ee (
      omega (
        arith,
        v.synced.synced w.listener,
        held-pos w.listener i m.distributor.subscriptions (v.kept i w there),
      ))

  -- In a live map, a value that is set wakes every call that waits for its key: its subscription ends,
  -- and when it goes on it returns that value. A call that waits for another key still waits.
  pub set-wakes :
      (i key : String) (value : T) (w : Waiter) (m : AsyncMap T)
      → Live m
      → get i m.waiting ≡ some w
      → let m' = set key value m in
        (w.key ≡ key → (get i m'.waiting ≡ none) × ((resume i m').0 ≡ some (ok value)))
        × ((w.key === key) ≡ false → get i m'.waiting ≡ some w)
  unfolding set resume Distributor.publish
  set-wakes i key value w m v there =
      let m₁ : AsyncMap T = record m { map = Dict.set key value m.map } in
      let v₁ = with_map-Live (Dict.set key value m.map) m v in
      let ls = Distributor.publish m.distributor m.ee in
      (
        λ for_key.
            let (gone, done) =
              hear_all-hit ls i key value w m₁ v₁ there for_key (is_called i w m v there) in
            (gone, ground (arith, done)),
        hear_all-other ls i key value w m₁ v₁ there,
      )
