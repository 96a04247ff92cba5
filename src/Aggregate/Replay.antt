-- ===== src/Aggregate/Replay.antt =====
-- Event sourcing over aggregate-root.class.ts: the fields of an aggregate are what its handlers make
-- of its history, so that a stored history brings the same fields back.
use mathlib.Core.Path.{subst, sym}
use moirae.Base.{
  String, Bool, Bool-cases, not, ◌&&◌, true, ◌∙◌, Option, List, [], ◌∷◌, ◌++◌, ◌≡◌, refl, inl, inr,
  arith,
}
use moirae.Failure.{Error, Result, ok, err, Result-cases}
use moirae.Message.{Message}
use moirae.Aggregate.Defs.{Class, Aggregate, apply, apply_all, construct}
use moirae.Aggregate.History.{handle, written, placed, extended, apply-outcome}

module _ {S D : Type 0} (cls : Class S D) where
  -- The handlers of a history, one after the other.
  unfoldable pub replay : List (Message D) → S → Result S
  replay [] s = ok s
  replay (e ∷ es) s = elim (handle cls e s) [ ok s' ↦ replay es s' | err x ↦ err x ]

  replay-append :
      (es : List (Message D)) (e : Message D) (s t : S)
      → replay es s ≡ ok t
      → replay (es ++ e ∷ []) s ≡ handle cls e t
  unfolding replay
  replay-append [] e s t h = ground arith
  replay-append (x ∷ es) e s t h = elim (Result-cases (handle cls x s)) [
    | inl (s', q) ↦ rw (q, replay) (replay-append es e s' t (ground arith))
    | inr (x', q) ↦ ground arith
  ]

  -- Stored events that replay are applied without a throw, and give what they replay to.
  pub apply_all-replay :
      (es : List (Message D)) (a : Aggregate S D) (s : S)
      → replay es a.state ≡ ok s
      → ((apply_all cls true es a).0 ≡ ok tt) × ((apply_all cls true es a).1.state ≡ s)
  unfolding apply_all replay
  apply_all-replay [] a s h = (refl, ground arith)
  apply_all-replay (e ∷ es) a s h = elim (Result-cases (handle cls e a.state)) [
    | inl (t, q) ↦
        let b = extended cls a e true t in
        let next : replay es b.state ≡ ok s = ground arith in
        ground (arith, apply-outcome cls a e true, apply_all-replay es b s next)
    | inr (x, q) ↦ absurd (ground arith)
  ]

-- A class at two times: `cls` when the events are applied, `cls'` when they are loaded. Fields are the
-- `Same` up to what is not kept, such as times that a handler reads from the clock.
module _ {S D : Type 0} (cls cls' : Class S D) (Same : S → S → Type 0) where
  -- An event that is handled is handled again later, without a throw and with the same effect; `apply` may
  -- have filled in its stream.
  abbrev pub IsRepeatable : Type 0
  IsRepeatable =
      (e : Message D) (id : Option String) (s t s' : S)
      → Same s t
      → handle cls e s ≡ ok s'
      → (t' : S) × (handle cls' (record e { stream_id = id }) t ≡ ok t') × Same s' t'

  -- A handler that throws has not written.
  abbrev pub IsAtomic : Type 0
  IsAtomic = (e : Message D) (s : S) (x : Error) → handle cls e s ≡ err x → written cls e s ≡ s

  abbrev Replays : Aggregate S D → Type 0
  Replays a = (t : S) × (replay cls' a.event_history cls'.initial ≡ ok t) × Same a.state t

  apply-Replays :
      (a : Aggregate S D) (e : Message D) (from_history : Bool)
      → IsRepeatable
      → IsAtomic
      → Replays a
      → Replays (apply cls e from_history a).1
  apply-Replays a e f again atomic r = elim (Bool-cases (cls.deleted a.state && not f)) [
    | inl gone ↦ rw (apply-outcome cls a e f, gone) r
    | inr there ↦ elim (Result-cases (handle cls e a.state)) [
      | inl (s, q) ↦
          let (t, ran, same) = r in
          let (t', q', same') = again e (placed cls a e).stream_id a.state t s same q in
          rw (apply-outcome cls a e f, there, q)
            (t', replay-append cls' a.event_history (placed cls a e) cls'.initial t ran ∙ q', same')
      | inr (x, q) ↦ rw (apply-outcome cls a e f, there, q, atomic e a.state x q) r
    ]
  ]

  -- The fields replay the history after any events, also where one of them throws.
  apply_all-Replays :
      (from_history : Bool) (es : List (Message D)) (a : Aggregate S D)
      → IsRepeatable
      → IsAtomic
      → Replays a
      → Replays (apply_all cls from_history es a).1
  unfolding apply_all
  apply_all-Replays f [] a again atomic r = r
  apply_all-Replays f (e ∷ es) a again atomic r =
      let next = apply-Replays a e f again atomic r in
      elim (Result-cases (apply cls e f a).0) [
        | inl (u, q) ↦
            let rest : (apply_all cls f (e ∷ es) a).1 ≡ (apply_all cls f es (apply cls e f a).1).1 =
              ground (arith, q) in
            subst Replays (sym rest) (apply_all-Replays f es (apply cls e f a).1 again atomic next)
        | inr (x, q) ↦
            let stopped : (apply_all cls f (e ∷ es) a).1 ≡ (apply cls e f a).1 =
              ground (arith, q) in
            subst Replays (sym stopped) next
      ]

  -- Event sourcing: take a new aggregate through any events, new or stored, of which some may throw.
  -- What its history then holds applies to a new aggregate later without a throw and brings the same
  -- fields back, up to what the class does not keep, if handled events are handled again with the same
  -- effect and a handler that throws has not written.
  pub rebuild :
      (id other : String) (from_history : Bool) (es : List (Message D))
      → Same cls.initial cls'.initial
      → IsRepeatable
      → IsAtomic
      → let a = (apply_all cls from_history es (construct cls id)).1 in
        let (r, b) = apply_all cls' true a.event_history (construct cls' other) in
        (r ≡ ok tt) × Same a.state b.state
  unfolding construct replay
  rebuild id other from_history es start again atomic =
      let a = (apply_all cls from_history es (construct cls id)).1 in
      let (t, ran, same) =
        apply_all-Replays from_history es (construct cls id) again atomic
          (cls'.initial, refl, start) in
      let (r, eq) = apply_all-replay cls' a.event_history (construct cls' other) t ran in
      (r, rw eq same)
