-- ===== src/AsyncMap/Live.antt =====
-- A waiter is never lost: what holds of an AsyncMap through any history of its operations.
use moirae.Base.{
  ℕ, String, ◌===◌, if◌then◌else◌, none, some, List, [], ◌∷◌, ◌≡◌, refl, arith, eq_iff,
  Option-cases, Bool-cases, inl, inr,
}
use moirae.Base.Dict.{Dict, get, IsMap, get-set, get-delete, set-IsMap, delete-IsMap, delete_absent}
use moirae.Base.Dict
use moirae.Observable.Emitter.{times}
use moirae.Observable.Distributor.{Distributor}
use moirae.Observable.Distributor
use moirae.Observable.Distributor.Delivery.{InSync, held, unsubscribe-InSync}
use moirae.AsyncMap.Defs.{AsyncMap, Waiter, construct, waiter_of, unsubscribe, hear, hear_all, set}

pub waiter_of_eq :
    (l : ℕ) (ws : Dict Waiter) (i : String) (w : Waiter)
    → IsMap ws
    → waiter_of l ws ≡ some (i, w)
    → (w.listener ≡ l) × (get i ws ≡ some w)
waiter_of_eq l [] i w u e = absurd (ground arith)
waiter_of_eq l ((j, v) ∷ ws) i w u e =
    ground (arith, waiter_of_eq l ws i w u.1, eq_iff j i, eq_iff i i)

pub waiter_of-none :
    (ws : Dict Waiter) (i : String) (w : Waiter)
    → get i ws ≡ some w
    → waiter_of w.listener ws ≡ none
    → ⊥
waiter_of-none [] i w e out = absurd (ground arith)
waiter_of-none ((j, v) ∷ ws) i w e out = ground (arith, waiter_of-none ws i w)

module _ {T : Type 0} where
  -- The emitter has the registrations of the distributor; a waiter holds its subscription, its
  -- listener is its own, and its call is not resolved.
  pub record Live (m : AsyncMap T) : Type 0 where
    pub synced : InSync m.distributor m.ee
    pub distinct : IsMap m.waiting
    pub kept :
        (i : String) (w : Waiter)
        → get i m.waiting ≡ some w
        → get i m.distributor.subscriptions ≡ some w.listener
    pub own :
        (i j : String) (v w : Waiter)
        → get i m.waiting ≡ some v
        → get j m.waiting ≡ some w
        → v.listener ≡ w.listener
        → i ≡ j
    pub pending : (i : String) (w : Waiter) → get i m.waiting ≡ some w → get i m.resolved ≡ none

  get-unsubscribe :
      (i j : String) (m : AsyncMap T)
      → get j (unsubscribe i m).distributor.subscriptions
        ≡ (if i === j then none else get j m.distributor.subscriptions)
  unfolding unsubscribe Distributor.unsubscribe
  get-unsubscribe i j m = elim (Option-cases (get i m.distributor.subscriptions)) [
    | inl e ↦ ground (arith, e, eq_iff i j)
    | inr (g, e) ↦ ground (arith, e, get-delete i j m.distributor.subscriptions)
  ]

  -- A waiter that leaves takes its subscription along.
  pub leave-Live :
      (i : String) (rs : Dict (String × T)) (m : AsyncMap T)
      → Live m
      → ((j : String) (w : Waiter) → get j (Dict.delete i m.waiting) ≡ some w → get j rs ≡ none)
      → Live (record (unsubscribe i m) { waiting = Dict.delete i m.waiting; resolved = rs })
  unfolding unsubscribe
  leave-Live i rs m v fresh = record {
    synced = unsubscribe-InSync i m.distributor m.ee v.synced;
    distinct = delete-IsMap i m.waiting v.distinct;
    kept = λ j w e. ground (arith, v.kept j w, get-unsubscribe i j m, get-delete i j m.waiting, e);
    own = λ j k a b p q same.
        ground
          (arith, v.own j k a b, get-delete i j m.waiting, get-delete i k m.waiting, p, q, same);
    pending = fresh;
  }

  pub hear-Live :
      (l : ℕ) (key : String) (value : T) (m : AsyncMap T) → Live m → Live (hear l key value m)
  unfolding hear
  hear-Live l key value m v = elim (Option-cases (waiter_of l m.waiting)) [
    | inl e ↦ rw (e, hear) v
    | inr ((i, w), e) ↦ elim (Bool-cases (w.key === key)) [
      | inl hit ↦
          rw (e, hit, hear)
            (leave-Live i (Dict.set i (key, value) m.resolved) m v (λ j x there. ground (
              arith,
              v.pending j x,
              get-delete i j m.waiting,
              get-set i j (key, value) m.resolved,
              there,
            )))
      | inr miss ↦ rw (e, miss, hear) v
    ]
  ]

  hear_all-Live :
      (ls : List ℕ) (key : String) (value : T) (m : AsyncMap T)
      → Live m
      → Live (hear_all ls key value m)
  unfolding hear_all
  hear_all-Live [] key value m v = v
  hear_all-Live (l ∷ ls) key value m v =
      hear_all-Live ls key value (hear l key value m) (hear-Live l key value m v)

  pub with_map-Live : (d : Dict T) (m : AsyncMap T) → Live m → Live (record m { map = d })
  with_map-Live d m v = record {
    synced = v.synced;
    distinct = v.distinct;
    kept = v.kept;
    own = v.own;
    pending = v.pending;
  }

  pub set-Live : (key : String) (value : T) (m : AsyncMap T) → Live m → Live (set key value m)
  unfolding set
  set-Live key value m v =
      hear_all-Live (Distributor.publish m.distributor m.ee) key value
        (record m { map = Dict.set key value m.map }) (with_map-Live (Dict.set key value m.map) m v)

  hear_all-map :
      (ls : List ℕ) (key : String) (value : T) (m : AsyncMap T)
      → (hear_all ls key value m).map ≡ m.map
  unfolding hear_all hear unsubscribe
  hear_all-map [] key value m = refl
  hear_all-map (l ∷ ls) key value m = ground (arith, hear_all-map ls key value (hear l key value m))

  -- Whoever is called, a set leaves the map of values with the new one in it.
  pub set-map :
      (key : String) (value : T) (m : AsyncMap T) → (set key value m).map ≡ Dict.set key value m.map
  unfolding set
  set-map key value m =
      hear_all-map (Distributor.publish m.distributor m.ee) key value
        (record m { map = Dict.set key value m.map })

  -- A new map over an emitter with no registrations.
  pub construct-Live : (d : Distributor) → d.subscriptions ≡ [] → Live (construct {T = T} d [])
  unfolding construct Distributor.channel times
  construct-Live d none_yet = record {
    synced = record { synced = λ h. rw (none_yet, held); distinct = rw none_yet tt };
    distinct = tt;
    kept = λ i w e. absurd (ground arith);
    own = λ i j v w p q same. absurd (ground arith);
    pending = λ i w e. absurd (ground arith);
  }
