-- ===== src/Store/Loading.antt =====
-- `mergeContext` of aggregate.factory.ts: which aggregate a stream gives.
use moirae.Base.{
  ℕ, String, Bool, true, some, List, [], ◌∷◌, ◌++◌, map, ◌≡◌, refl, ◌∙◌, sym, ap, arith, ◌⊎◌, inl,
  inr,
}
use moirae.Failure.{Result, Result-cases, ok, err}
use moirae.Message.{Message}
use moirae.Aggregate.{
  Class, Aggregate, construct, apply_all, set_commit_function, uncommitted_event_history,
}
use moirae.Aggregate.History.{handle, apply-ok}
use moirae.Aggregate.Replay.{replay, apply_all-replay}
use moirae.Aggregate.Commit.{apply_all-ok, apply_all-stored, uncommitted-drop}
use moirae.Store.Defs.{loaded}

module _ {S D : Type 0} (cls : Class S D) where
  -- Two events that a handler tells apart by nothing but what surrounds the payload.
  abbrev pub Agree : Message D → Message D → Type 0
  Agree e d =
      (e.name ≡ d.name) × (e.uuid ≡ d.uuid) × (e.timestamp ≡ d.timestamp) × (e.payload ≡ d.payload)

  -- The handlers read of an event only its name, uuid, timestamp and payload.
  abbrev pub IsPayloadOnly : Type 0
  IsPayloadOnly = (e d : Message D) (s : S) → Agree e d → handle cls e s ≡ handle cls d s

  -- Events that were applied without a throw replay to the fields.
  pub apply_all-ok_replay :
      (f : Bool) (es : List (Message D)) (a b : Aggregate S D)
      → apply_all cls f es a ≡ (ok tt, b)
      → (replay cls es a.state ≡ ok b.state)
        × (b.commit_set ≡ a.commit_set)
        × (b.stream_id ≡ a.stream_id)
  unfolding apply_all replay
  apply_all-ok_replay f [] a b h = rw (← ap (λ p. p.1) h) (refl, refl, refl)
  apply_all-ok_replay f (e ∷ es) a b h =
      let (c, first, rest) = apply_all-ok cls f e es a b h in
      let (s, q, eq) = apply-ok cls a c e f first in
      let (r, set, id) = apply_all-ok_replay f es c b rest in
      (
        ground (arith, q, r, ap (λ x. x.state) eq),
        set ∙ ap (λ x. x.commit_set) eq,
        id ∙ ap (λ x. x.stream_id) eq,
      )

  pub replay-++ :
      (xs ys : List (Message D)) (s t : S)
      → replay cls xs s ≡ ok t
      → replay cls (xs ++ ys) s ≡ replay cls ys t
  unfolding replay
  replay-++ [] ys s t h = ground arith
  replay-++ (x ∷ xs) ys s t h = elim (Result-cases (handle cls x s)) [
    | inl (u, q) ↦ rw (q, replay) (replay-++ xs ys u t (ground arith))
    | inr (x', q) ↦ absurd (ground arith)
  ]

  pub replay-map :
      (f : Message D → Message D) (es : List (Message D)) (s : S)
      → IsPayloadOnly
      → ((e : Message D) → Agree (f e) e)
      → replay cls (map f es) s ≡ replay cls es s
  unfolding replay
  replay-map f [] s blind same = refl
  replay-map f (e ∷ es) s blind same = elim (Result-cases (handle cls e s)) [
    | inl (t, q) ↦ ground (arith, blind (f e) e s (same e), replay-map f es t blind same)
    | inr (x, q) ↦ ground (arith, blind (f e) e s (same e))
  ]

  -- Events that replay are loaded into an aggregate with the commit function and nothing uncommitted.
  pub loaded-ok :
      (events : List (Message D)) (id : String) (s : S)
      → replay cls events cls.initial ≡ ok s
      → (a : Aggregate S D) × (loaded cls (ok events) id ≡ ok a)
        × (a.state ≡ s)
        × (uncommitted_event_history a ≡ [])
  unfolding loaded set_commit_function construct
  loaded-ok events id s h =
      let (ran, st) = apply_all-replay cls events (construct cls id) s h in
      let a₀ = (apply_all cls true events (construct cls id)).1 in
      let full : apply_all cls true events (construct cls id) ≡ (ok tt, a₀) =
        ap (λ r. (r, a₀)) ran in
      let (_, set, _) = apply_all-ok_replay true events (construct cls id) a₀ full in
      let (_, u, _) = apply_all-stored cls events (construct cls id) a₀ (omega arith) refl full in
      let a : Aggregate S D = record a₀ { commit_set = true } in
      (a, ground (arith, ran, set), st, uncommitted-drop a ∙ u)

  pub loaded-inv :
      (events : List (Message D)) (id : String) (a : Aggregate S D)
      → loaded cls (ok events) id ≡ ok a
      → (a₀ : Aggregate S D) × (apply_all cls true events (construct cls id) ≡ (ok tt, a₀))
        × (a ≡ record a₀ { commit_set = true })
  unfolding loaded set_commit_function construct
  loaded-inv events id a h =
      let a₀ = (apply_all cls true events (construct cls id)).1 in
      elim (Result-cases (apply_all cls true events (construct cls id)).0) [
        | inl (u, q) ↦
            let full : apply_all cls true events (construct cls id) ≡ (ok tt, a₀) =
              ap (λ r. (r, a₀)) q in
            let (_, set, _) = apply_all-ok_replay true events (construct cls id) a₀ full in
            (a₀, full, ground (arith, q, set, h))
        | inr (x, q) ↦ absurd (ground (arith, q, h))
      ]

  pub loaded-stream_id :
      (r : Result (List (Message D))) (id : String) (a : Aggregate S D)
      → loaded cls r id ≡ ok a
      → a.stream_id ≡ id
  unfolding loaded construct
  loaded-stream_id (err e) id a h = absurd (cc)
  loaded-stream_id (ok events) id a h =
      let (a₀, full, eq) = loaded-inv events id a h in
      let (_, _, same) = apply_all-ok_replay true events (construct cls id) a₀ full in
      ap (λ x. x.stream_id) eq ∙ same

  updated_at-apply_all :
      (f : Bool) (t : ℕ) (es : List (Message D)) (a b : Aggregate S D)
      → a.updated_at ≡ some t
      → apply_all cls f es a ≡ (ok tt, b)
      → (u : ℕ) × (b.updated_at ≡ some u)
  unfolding apply_all
  updated_at-apply_all f t [] a b set h = (t, ap (λ p. p.1.updated_at) (sym h) ∙ set)
  updated_at-apply_all f t (e ∷ es) a b set h =
      let (c, first, rest) = apply_all-ok cls f e es a b h in
      let (s, _, eq) = apply-ok cls a c e f first in
      updated_at-apply_all f e.timestamp es c b (ap (λ x. x.updated_at) eq) rest

  -- A loaded aggregate has the fields of a new one, or the time of an event.
  pub loaded-updated_at :
      (r : Result (List (Message D))) (id : String) (a : Aggregate S D)
      → loaded cls r id ≡ ok a
      → (a.state ≡ cls.initial) ⊎ ((u : ℕ) × (a.updated_at ≡ some u))
  unfolding loaded construct apply_all
  loaded-updated_at (err e) id a h = absurd (cc)
  loaded-updated_at (ok []) id a h =
      let (a₀, full, eq) = loaded-inv [] id a h in
      inl (ap (λ x. x.state) eq ∙ ap (λ p. p.1.state) (sym full))
  loaded-updated_at (ok (e ∷ events)) id a h =
      let (a₀, full, eq) = loaded-inv (e ∷ events) id a h in
      let (c, first, rest) = apply_all-ok cls true e events (construct cls id) a₀ full in
      let (s, _, step) = apply-ok cls (construct cls id) c e true first in
      let (u, set) =
        updated_at-apply_all true e.timestamp events c a₀ (ap (λ x. x.updated_at) step) rest in
      inr (u, ap (λ x. x.updated_at) eq ∙ set)
