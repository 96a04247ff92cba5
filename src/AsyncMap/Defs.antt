-- ===== src/AsyncMap/Defs.antt =====
-- moirae/core/lib/classes/async-map.class.ts over the distributor that it is given. A call of `waitGet`
-- that finds no value is a waiter, under the id of its subscription, until its listener or its timer
-- runs. What stands after the `await` runs later: until then the call is among the resolved ones.
use moirae.Base.{ℕ, String, ◌===◌, ◌==◌, if◌then◌else◌, Bool, Option, none, some, List, [], ◌∷◌}
use moirae.Base.Dict.{Dict}
use moirae.Base.Dict
use moirae.Failure.{Result, ok, err, async_map_timeout}
use moirae.Observable.Emitter.{Emitter}
use moirae.Observable.Distributor.{Distributor}
use moirae.Observable.Distributor

-- A call of `waitGet` at its `await`.
pub record Waiter : Type 0 where
  pub listener : ℕ
  pub key : String

pub record AsyncMap (T : Type 0) : Type 0 where
  pub map : Dict T
  pub distributor : Distributor
  pub ee : Emitter
  pub waiting : Dict Waiter
  pub resolved : Dict (String × T)

-- The waiter whose listener it is.
abbrev pub waiter_of : ℕ → Dict Waiter → Option (String × Waiter)
waiter_of l [] = none
waiter_of l ((i, w) ∷ ws) = if w.listener == l then some (i, w) else waiter_of l ws

module _ {T : Type 0} where
  unfoldable pub construct : Distributor → Emitter → AsyncMap T
  construct distributor ee = record {
    map = [];
    distributor = distributor;
    ee = ee;
    waiting = [];
    resolved = [];
  }

  unfoldable pub size : AsyncMap T → ℕ
  size m = Dict.size m.map

  unfoldable pub has : String → AsyncMap T → Bool
  has key m = Dict.has key m.map

  unfoldable pub delete : String → AsyncMap T → AsyncMap T
  delete key m = record m { map = Dict.delete key m.map }

  -- `get`; `truthy_value` is what JavaScript takes for true among the values.
  unfoldable pub lookup : (T → Bool) → String → Option T → AsyncMap T → Option T
  lookup truthy_value key default m = elim (Dict.get key m.map) [
    | none ↦ default
    | some v ↦ if truthy_value v then some v else default
  ]

  unfoldable pub unsubscribe : String → AsyncMap T → AsyncMap T
  unsubscribe id m =
      let (d, ee) = Distributor.unsubscribe id m.distributor m.ee in
      record m { distributor = d; ee = ee }

  unfoldable pub subscribe : String → ℕ → AsyncMap T → AsyncMap T
  subscribe id listener m =
      let (d, ee) = Distributor.subscribe id listener m.distributor m.ee in
      record m { distributor = d; ee = ee }

  -- The listener `l` is called: that of a waiter for the key ends its subscription and resolves.
  unfoldable pub hear : ℕ → String → T → AsyncMap T → AsyncMap T
  unfolding unsubscribe
  hear l key value m = elim (waiter_of l m.waiting) [
    | none ↦ m
    | some (id, w) ↦
        if w.key === key
        then record (unsubscribe id m) {
          waiting = Dict.delete id m.waiting;
          resolved = Dict.set id (key, value) m.resolved;
        }
        else m
  ]

  unfoldable pub hear_all : List ℕ → String → T → AsyncMap T → AsyncMap T
  hear_all [] key value m = m
  hear_all (l ∷ ls) key value m = hear_all ls key value (hear l key value m)

  -- `set`: the listeners that the distributor has then are all called.
  unfoldable pub set : String → T → AsyncMap T → AsyncMap T
  unfolding hear_all
  set key value m =
      hear_all (Distributor.publish m.distributor m.ee) key value
        (record m { map = Dict.set key value m.map })

  -- `waitGet` as far as its `await`; the value is there if the key is.
  unfoldable pub wait_get :
      (T → Bool) → String → ℕ → String → AsyncMap T → Option (Option T) × AsyncMap T
  unfolding has lookup subscribe
  wait_get truthy_value id listener key m =
      if has key m then (some (lookup truthy_value key none m), m) else (
        none,
        record (subscribe id listener m) {
          waiting = Dict.set id (record { listener = listener; key = key }) m.waiting;
        },
      )

  -- The timer of a waiter runs out.
  unfoldable pub time_out : String → AsyncMap T → Option (Result T) × AsyncMap T
  unfolding unsubscribe
  time_out id m = elim (Dict.get id m.waiting) [
    | none ↦ (none, m)
    | some w ↦ (
      some (err async_map_timeout),
      record (unsubscribe id m) { waiting = Dict.delete id m.waiting },
    )
  ]

  -- A resolved call goes on: it sets the key once more, and returns the value.
  unfoldable pub resume : String → AsyncMap T → Option (Result T) × AsyncMap T
  unfolding set
  resume id m = elim (Dict.get id m.resolved) [
    | none ↦ (none, m)
    | some (key, value) ↦
        (some (ok value), set key value (record m { resolved = Dict.delete id m.resolved }))
  ]
