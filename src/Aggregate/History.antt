-- ===== src/Aggregate/History.antt =====
-- `apply`, `eventHistory` and `uncommittedEventHistory` of aggregate-root.class.ts: what a call does on
-- each branch, and what of the history is not committed yet.
use moirae.Base.{
  if◌then◌else◌, Bool, not, ◌&&◌, none, some, [], ◌∷◌, ◌++◌, length, ◌≡◌, inl, inr, arith,
}
use moirae.Failure.{Result, Result-cases, ok, err, aggregate_deleted, unhandled_event}
use moirae.Message.{Message, or_else}
use moirae.Aggregate.Defs.{Class, Aggregate, apply}

module _ {S D : Type 0} (cls : Class S D) where
  -- The event as the history keeps it.
  abbrev pub placed : Aggregate S D → Message D → Message D
  placed a event = record event { stream_id = or_else event.stream_id (some a.stream_id) }

  -- The aggregate after a call that does not throw, with `s` what the handler made of the fields.
  abbrev pub extended : Aggregate S D → Message D → Bool → S → Aggregate S D
  extended a event from_history s = record a {
    state = s;
    event_history = a.event_history ++ placed a event ∷ [];
    last_committed_index =
        if from_history then some (length a.event_history) else a.last_committed_index;
    updated_at = some event.timestamp;
  }

  -- What the handler of an event makes of the fields, or what it throws.
  unfoldable pub handle : Message D → S → Result S
  handle event s = elim (cls.on_apply event.name) [
    | none ↦ err (unhandled_event event.name)
    | some h ↦ elim (h event s).0 [ ok _ ↦ ok (h event s).1 | err e ↦ err e ]
  ]

  -- What the handler has written, also where it throws.
  unfoldable pub written : Message D → S → S
  written event s = elim (cls.on_apply event.name) [ none ↦ s | some h ↦ (h event s).1 ]

  abbrev outcome : Aggregate S D → Message D → Bool → Result S → Result (Unit {0}) × Aggregate S D
  outcome a event from_history (ok s) = (ok tt, extended a event from_history s)
  outcome a event from_history (err e) = (err e, record a { state = written event a.state })

  -- A deleted aggregate takes no new event. Else the handler decides: if it throws, or there is none,
  -- nothing but the fields that it wrote changes; if not, the event joins the history.
  pub apply-outcome :
      (a : Aggregate S D) (event : Message D) (from_history : Bool)
      → apply cls event from_history a ≡ (
          if cls.deleted a.state && not from_history
          then (err aggregate_deleted, a)
          else outcome a event from_history (handle event a.state))
  unfolding apply handle written
  apply-outcome a event from_history = ground arith

  -- What a call that did not throw has done.
  pub apply-ok :
      (a b : Aggregate S D) (event : Message D) (from_history : Bool)
      → apply cls event from_history a ≡ (ok tt, b)
      → (s : S) × (handle event a.state ≡ ok s) × (b ≡ extended a event from_history s)
  apply-ok a b event from_history h = elim (Result-cases (handle event a.state)) [
    | inl (s, q) ↦ (s, q, ground (arith, apply-outcome a event from_history))
    | inr (x, q) ↦ absurd (ground (arith, apply-outcome a event from_history))
  ]
