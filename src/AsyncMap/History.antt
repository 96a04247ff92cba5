-- ===== src/AsyncMap/History.antt =====
-- Histories of the operations of an AsyncMap.
use moirae.Base.{
  ℕ, String, Bool, none, List, [], ◌∷◌, ◌≡◌, arith, eq_iff, Option-cases, Bool-cases, inl, inr,
}
use moirae.Base.Dict.{Dict, get, IsMap, get-set, get-delete, set-IsMap, delete-IsMap, delete_absent}
use moirae.Base.Dict
use moirae.Observable.Distributor.{Distributor}
use moirae.Observable.Distributor
use moirae.Observable.Distributor.Delivery.{subscribe-InSync}
use moirae.AsyncMap.Defs.{
  AsyncMap, Waiter, waiter_of, subscribe, set, delete, wait_get, has, time_out, resume,
}
use moirae.AsyncMap.Live.{Live, waiter_of-none, leave-Live, with_map-Live, set-Live}

module _ {T : Type 0} where
  -- A call of `waitGet` with a new subscription and a listener of its own.
  abbrev pub IsNew : String → ℕ → AsyncMap T → Type 0
  IsNew id listener m =
      (get id m.distributor.subscriptions ≡ none)
      × (get id m.resolved ≡ none)
      × (waiter_of listener m.waiting ≡ none)

  pub wait_get-Live :
      (truthy_value : T → Bool) (id : String) (listener : ℕ) (key : String) (m : AsyncMap T)
      → Live m
      → IsNew id listener m
      → Live (wait_get truthy_value id listener key m).1
  unfolding wait_get subscribe Distributor.subscribe
  wait_get-Live truthy_value id listener key m v (unused, unresolved, own) =
      let w : Waiter = record { listener = listener; key = key } in
      elim (Bool-cases (has key m)) [
        | inl here ↦ rw (here, wait_get) v
        | inr out ↦
            rw (out, wait_get)
              (record {
                synced =
                    subscribe-InSync id listener m.distributor m.ee (ground (arith, unused))
                      v.synced;
                distinct = set-IsMap id w m.waiting v.distinct;
                kept = λ i x e. ground (
                  arith,
                  v.kept i x,
                  get-set id i w m.waiting,
                  get-set id i listener m.distributor.subscriptions,
                  e,
                );
                own = λ i j x y p q same. ground (
                  arith,
                  v.own i j x y,
                  waiter_of-none m.waiting i x,
                  waiter_of-none m.waiting j y,
                  get-set id i w m.waiting,
                  get-set id j w m.waiting,
                  eq_iff id i,
                  eq_iff id j,
                  own,
                  p,
                  q,
                  same,
                );
                pending = λ i x e.
                    ground
                      (arith, v.pending i x, get-set id i w m.waiting, eq_iff id i, unresolved, e);
              })
      ]

  pub time_out-Live : (id : String) (m : AsyncMap T) → Live m → Live (time_out id m).1
  unfolding time_out
  time_out-Live id m v = elim (Option-cases (get id m.waiting)) [
    | inl e ↦ rw (e, time_out) v
    | inr (w, e) ↦
        rw (e, time_out)
          (leave-Live id m.resolved m v
            (λ j x there. ground (arith, v.pending j x, get-delete id j m.waiting, there)))
  ]

  resume-Live : (id : String) (m : AsyncMap T) → Live m → Live (resume id m).1
  unfolding resume
  resume-Live id m v = elim (Option-cases (get id m.resolved)) [
    | inl e ↦ rw (e, resume) v
    | inr ((key, value), e) ↦
        rw (e, resume)
          (set-Live key value (record m { resolved = Dict.delete id m.resolved })
            (record {
              synced = v.synced;
              distinct = v.distinct;
              kept = v.kept;
              own = v.own;
              pending =
                  λ j x there. ground (arith, v.pending j x there, get-delete id j m.resolved);
            }))
  ]

pub data Call (T : Type 0) : Type 0 where
  sets : String → T → Call T
  deletes : String → Call T
  waits : String → ℕ → String → Call T
  times_out : String → Call T
  resumes : String → Call T

module _ {T : Type 0} (truthy_value : T → Bool) where
  unfoldable pub step : Call T → AsyncMap T → AsyncMap T
  step (sets key value) m = set key value m
  step (deletes key) m = delete key m
  step (waits id listener key) m = (wait_get truthy_value id listener key m).1
  step (times_out id) m = (time_out id m).1
  step (resumes id) m = (resume id m).1

  unfoldable pub run : List (Call T) → AsyncMap T → AsyncMap T
  run [] m = m
  run (c ∷ calls) m = run calls (step c m)

  abbrev pub AreNew : List (Call T) → AsyncMap T → Type 0
  AreNew [] m = Unit
  AreNew (waits id listener key ∷ calls) m =
      IsNew id listener m × AreNew calls (step (waits id listener key) m)
  AreNew (sets key value ∷ calls) m = AreNew calls (step (sets key value) m)
  AreNew (deletes key ∷ calls) m = AreNew calls (step (deletes key) m)
  AreNew (times_out id ∷ calls) m = AreNew calls (step (times_out id) m)
  AreNew (resumes id ∷ calls) m = AreNew calls (step (resumes id) m)

  -- Through any interleaving of sets, deletions, waits, timers that run out and calls that go on, where
  -- each wait draws a new id and has a listener of its own, every waiting call keeps its subscription,
  -- the emitter has no other registration for the map, and no waiting call is resolved already.
  pub run-Live :
      (calls : List (Call T)) (m : AsyncMap T) → AreNew calls m → Live m → Live (run calls m)
  unfolding run step delete
  run-Live [] m new v = v
  run-Live (sets key value ∷ calls) m new v =
      run-Live calls (set key value m) new (set-Live key value m v)
  run-Live (deletes key ∷ calls) m new v =
      run-Live calls (delete key m) new (with_map-Live (Dict.delete key m.map) m v)
  run-Live (waits id listener key ∷ calls) m new v =
      run-Live calls (wait_get truthy_value id listener key m).1 new.1
        (wait_get-Live truthy_value id listener key m v new.0)
  run-Live (times_out id ∷ calls) m new v =
      run-Live calls (time_out id m).1 new (time_out-Live id m v)
  run-Live (resumes id ∷ calls) m new v = run-Live calls (resume id m).1 new (resume-Live id m v)
