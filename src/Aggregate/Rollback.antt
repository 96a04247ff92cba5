-- ===== src/Aggregate/Rollback.antt =====
-- `rollback` of aggregate-root.class.ts: which events it adds.
pub mod Again
use mathlib.Core.List.{append-nil, append_assoc, reverse, reverse-cons, reverse-append}
use moirae.Base.{
  ℕ, ◌<◌, String, Bool, false, none, some, List, [], ◌∷◌, ◌++◌, map, length, ◌≡◌, refl, ◌⊎◌, inl,
  inr, arith, length-append, ◌∙◌, sym, ap, All, select, eq_iff, Option-cases,
}
use moirae.Failure.{Error, Result-cases, Action, ok, err, unhandled_event}
use moirae.Message.{Message}
use moirae.Aggregate.Defs.{Class, Aggregate, apply_all, make_rollbacks, rollback, correlated}
use moirae.Aggregate.History.{apply-ok}
use moirae.Aggregate.Commit.{place, apply_all-ok}

length-reverse : {A : Type 0} (xs : List A) → length (reverse xs) ≡ length xs
length-reverse [] = refl
length-reverse (x ∷ xs) =
    omega
      (arith, ap length (reverse-cons x xs), length-append (reverse xs) (x ∷ []), length-reverse xs)

module _ {S D : Type 0} (cls : Class S D) where
  -- A rollback handler only makes an event: it leaves the aggregate alone.
  abbrev pub KeepsAggregate : Type 0
  KeepsAggregate =
      (e : Message D) (h : Message D → Action (Aggregate S D) (Message D)) (a : Aggregate S D)
      → cls.on_rollback e.name ≡ some h
      → (h e a).1 ≡ a

  -- What rolls back is not rolled back itself.
  abbrev pub IsFinal : Type 0
  IsFinal =
      (e r : Message D) (h : Message D → Action (Aggregate S D) (Message D)) (a b : Aggregate S D)
      → cls.on_rollback e.name ≡ some h
      → h e a ≡ (ok r, b)
      → cls.on_rollback r.name ≡ none

  -- One round of the first `map` of `rollback`.
  make_rollbacks-cons :
      (id : String) (e : Message D) (es : List (Message D)) (a : Aggregate S D)
      → KeepsAggregate
      → ((x : Error) × (make_rollbacks cls id (e ∷ es) a ≡ (err x, a)))
        ⊎ ((h : Message D → Action (Aggregate S D) (Message D)) × (r : Message D) × (cls.on_rollback
                e.name
              ≡ some h)
            × (h e a ≡ (ok r, a))
            × (make_rollbacks cls id (e ∷ es) a ≡ (
              elim (make_rollbacks cls id es a).0 [
                | ok rs ↦ ok (record r { correlation_id = some id } ∷ rs)
                | err x ↦ err x
              ],
              (make_rollbacks cls id es a).1,
            )))
  unfolding make_rollbacks
  make_rollbacks-cons id e es a keeps = elim (Option-cases (cls.on_rollback e.name)) [
    | inl missing ↦ inl (unhandled_event e.name, ground arith)
    | inr (h, found) ↦ elim (Result-cases (h e a).0) [
      | inl (r, q) ↦
          inr (h, r, found, ground (arith, keeps e h a found), ground (arith, keeps e h a found))
      | inr (x, q) ↦ inl (x, ground (arith, keeps e h a found))
    ]
  ]

  -- A rolled-back event carries the correlation, and has no rollback of its own.
  abbrev pub IsRolled : String → Message D → Type 0
  IsRolled id r = (r.correlation_id ≡ some id) × (cls.on_rollback r.name ≡ none)

  make_rollbacks-keeps :
      (id : String) (es : List (Message D)) (a : Aggregate S D)
      → KeepsAggregate
      → (make_rollbacks cls id es a).1 ≡ a
  unfolding make_rollbacks
  make_rollbacks-keeps id [] a keeps = refl
  make_rollbacks-keeps id (e ∷ es) a keeps = elim (make_rollbacks-cons id e es a keeps) [
    | inl (x, q) ↦ ap (λ p. p.1) q
    | inr (h, r, found, made, q) ↦ ap (λ p. p.1) q ∙ make_rollbacks-keeps id es a keeps
  ]

  make_rollbacks-ok :
      (id : String) (es rs : List (Message D)) (a : Aggregate S D)
      → KeepsAggregate
      → IsFinal
      → (make_rollbacks cls id es a).0 ≡ ok rs
      → (length rs ≡ length es) × All (IsRolled id) rs
  unfolding make_rollbacks
  make_rollbacks-ok id [] rs a keeps final h = ground arith
  make_rollbacks-ok id (e ∷ es) rs a keeps final h = elim (make_rollbacks-cons id e es a keeps) [
    | inl (x, q) ↦ absurd (ground arith)
    | inr (hd, r, found, made, q) ↦ elim (Result-cases (make_rollbacks cls id es a).0) [
      | inl (ts, t) ↦
          let (len, all) = make_rollbacks-ok id es ts a keeps final t in
          ground (arith, final e r hd a a found made)
      | inr (x, t) ↦ absurd (ground arith)
    ]
  ]

  -- Each event of the second list is what the rollback handler of the one opposite makes, with the
  -- correlation.
  abbrev pub Undone : String → Aggregate S D → List (Message D) → List (Message D) → Type 0
  Undone id a [] [] = Unit
  Undone id a [] (r ∷ rs) = ⊥
  Undone id a (e ∷ es) [] = ⊥
  Undone id a (e ∷ es) (r ∷ rs) =
      ((h : Message D → Action (Aggregate S D) (Message D)) × (made : Message D) × (cls.on_rollback
            e.name
          ≡ some h)
        × (h e a ≡ (ok made, a))
        × (r ≡ record made { correlation_id = some id }))
      × Undone id a es rs

  make_rollbacks-Undone :
      (id : String) (es rs : List (Message D)) (a : Aggregate S D)
      → KeepsAggregate
      → (make_rollbacks cls id es a).0 ≡ ok rs
      → Undone id a es rs
  unfolding make_rollbacks
  make_rollbacks-Undone id [] [] a keeps h = tt
  make_rollbacks-Undone id [] (r ∷ rs) a keeps h = absurd (ground arith)
  make_rollbacks-Undone id (e ∷ es) rs a keeps h = elim (make_rollbacks-cons id e es a keeps) [
    | inl (x, q) ↦ absurd (ground arith)
    | inr (hd, r, found, made, q) ↦ elim (Result-cases (make_rollbacks cls id es a).0) [
      | inl (ts, t) ↦
          let same : record r { correlation_id = some id } ∷ ts ≡ rs = ground arith in
          rw (← same) ((hd, r, found, made, refl), make_rollbacks-Undone id es ts a keeps t)
      | inr (x, t) ↦ absurd (ground arith)
    ]
  ]

  pub history-apply_all :
      (es : List (Message D)) (a b : Aggregate S D)
      → apply_all cls false es a ≡ (ok tt, b)
      → (b.event_history ≡ a.event_history ++ map (place cls a.stream_id) es)
        × (b.stream_id ≡ a.stream_id)
  unfolding apply_all
  history-apply_all [] a b h = rw (← ap (λ p. p.1) h) (sym (append-nil a.event_history), refl)
  history-apply_all (e ∷ es) a b h =
      let (c, first, rest) = apply_all-ok cls false e es a b h in
      let (s, _, eq) = apply-ok cls a c e false first in
      let (hb, ib) = history-apply_all es c b rest in
      (
        hb
            ∙ rw eq (
                append_assoc a.event_history (place cls a.stream_id e ∷ [])
                  (map (place cls a.stream_id) es)),
        ib ∙ rw eq refl,
      )

  -- With handlers that leave the aggregate alone and make events that are not rolled back themselves: a
  -- rollback that does not throw takes the events of the correlation, the newest first, applies what
  -- their rollback handlers make, with the correlation, as new events, and returns their number.
  pub rollback-ok :
      (id : String) (a b : Aggregate S D) (n : ℕ)
      → KeepsAggregate
      → IsFinal
      → rollback cls id a ≡ (ok n, b)
      → (n ≡ length (select (correlated id) a.event_history))
        × (rs : List (Message D)) × (length rs ≡ n)
        × All (IsRolled id) rs
        × Undone id a (reverse (select (correlated id) a.event_history)) rs
        × (b.event_history ≡ a.event_history ++ map (place cls a.stream_id) rs)
        × (apply_all cls false rs a ≡ (ok tt, b))
  unfolding rollback
  rollback-ok id a b n keeps final h =
      let es = reverse (select (correlated id) a.event_history) in
      elim (Result-cases (make_rollbacks cls id es a).0) [
        | inl (rs, q) ↦
            let (len, all) = make_rollbacks-ok id es rs a keeps final q in
            let ran : apply_all cls false rs a ≡ (ok tt, b) =
              ground (arith, make_rollbacks-keeps id es a keeps) in
            let count : n ≡ length rs = ground arith in
            let size = length-reverse (select (correlated id) a.event_history) in
            let (hb, _) = history-apply_all rs a b ran in
            (omega arith, rs, sym count, all, make_rollbacks-Undone id es rs a keeps q, hb, ran)
        | inr (x, q) ↦ absurd (ground arith)
      ]
