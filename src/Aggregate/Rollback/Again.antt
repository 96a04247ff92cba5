-- ===== src/Aggregate/Rollback/Again.antt =====
-- A second `rollback` of one correlation, in aggregate-root.class.ts.
use mathlib.Core.List.{reverse, reverse-cons, reverse-append}
use moirae.Base.{
  ℕ, ◌<◌, String, none, List, [], ◌∷◌, ◌++◌, map, length, ◌≡◌, refl, arith, ◌∙◌, ap, All, select,
  select-append, eq_iff,
}
use moirae.Failure.{ok, err, unhandled_event}
use moirae.Message.{Message}
use moirae.Aggregate.Defs.{Class, Aggregate, make_rollbacks, rollback, correlated}
use moirae.Aggregate.Commit.{place}
use moirae.Aggregate.Rollback.{KeepsAggregate, IsFinal, IsRolled, rollback-ok}

module _ {S D : Type 0} (cls : Class S D) where
  select-rolled :
      (id sid : String) (rs : List (Message D))
      → All (IsRolled cls id) rs
      → select (correlated id) (map (place cls sid) rs) ≡ map (place cls sid) rs
  select-rolled id sid [] all = refl
  select-rolled id sid (r ∷ rs) all = ground (arith, eq_iff id id, select-rolled id sid rs all.1)

  abbrev HasNone : Message D → Type 0
  HasNone r = cls.on_rollback r.name ≡ none

  -- The newest of some events that cannot be rolled back comes first.
  reverse-rolled :
      (id sid : String) (rs : List (Message D))
      → 0 < length rs
      → All (IsRolled cls id) rs
      → (z : Message D) × (zs : List (Message D)) × (reverse (map (place cls sid) rs) ≡ z ∷ zs)
        × HasNone z
  reverse-rolled id sid [] pos all = absurd (omega arith)
  reverse-rolled id sid (r ∷ []) pos all = (place cls sid r, [], refl, all.0.1)
  reverse-rolled id sid (r ∷ s ∷ rs) pos all =
      let (z, zs, e, h) = reverse-rolled id sid (s ∷ rs) (omega arith) all.1 in
      (
        z,
        zs ++ place cls sid r ∷ [],
        reverse-cons (place cls sid r) (map (place cls sid) (s ∷ rs))
            ∙ ap (λ l. l ++ place cls sid r ∷ []) e,
        h,
      )

  make_rollbacks-none :
      (id : String) (z : Message D) (zs : List (Message D)) (a : Aggregate S D)
      → HasNone z
      → make_rollbacks cls id (z ∷ zs) a ≡ (err (unhandled_event z.name), a)
  unfolding make_rollbacks
  make_rollbacks-none id z zs a h = ground arith

  -- With handlers that leave the aggregate alone and make events that are not rolled back themselves:
  -- once a correlation with events has been rolled back, a second rollback of it throws, as it meets
  -- the events that the first one added. The aggregate is left alone.
  pub rollback_again :
      (id : String) (a b : Aggregate S D) (n : ℕ)
      → KeepsAggregate cls
      → IsFinal cls
      → rollback cls id a ≡ (ok n, b)
      → 0 < n
      → (x : String) × (rollback cls id b ≡ (err (unhandled_event x), b))
  unfolding rollback
  rollback_again id a b n keeps final h pos =
      let (_, rs, len, all, _, hist, _) = rollback-ok cls id a b n keeps final h in
      let old = select (correlated id) a.event_history in
      let new = map (place cls a.stream_id) rs in
      let (z, zs, e, missing) = reverse-rolled id a.stream_id rs (omega arith) all in
      let picked : reverse (select (correlated id) b.event_history) ≡ z ∷ (zs ++ reverse old) =
        ap (λ l. reverse (select (correlated id) l)) hist
        ∙ ap reverse (
            select-append (correlated id) a.event_history new
            ∙ ap (◌++◌ old) (select-rolled id a.stream_id rs all))
        ∙ reverse-append old new
        ∙ ap (λ l. l ++ reverse old) e in
      (z.name, ground (arith, picked, make_rollbacks-none id z (zs ++ reverse old) b missing))
