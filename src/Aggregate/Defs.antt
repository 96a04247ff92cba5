-- ===== src/Aggregate/Defs.antt =====
-- moirae/core/lib/classes/aggregate-root.class.ts: the state of an aggregate and its methods. What a
-- subclass adds is its fields `S` and the tables that `@Apply` and `@Rollback` fill, by event name.
use moirae.Base.{
  ℕ, ◌+◌, String, ◌===◌, leb, if◌then◌else◌, Bool, true, false, not, ◌&&◌, Option, none, some, List,
  [], ◌∷◌, ◌++◌, map, length, take, drop, select,
}
use moirae.Base.Dict.{Dict}
use moirae.Failure.{
  Result, ok, err, Action, pure, throw, throw_if, ◌>>=◌, ◌>>◌, modify, gets, aggregate_deleted,
  unhandled_event, unavailable_commit, invalid_multiple_set,
}
use moirae.Message.{Message, or_else, or_empty, spread}
use mathlib.Core.List.{reverse}

pub record Aggregate (S D : Type 0) : Type 0 where
  pub stream_id : String
  -- the fields of the subclass
  pub state : S
  pub event_history : List (Message D)
  pub last_committed_index : Option ℕ
  pub updated_at : Option ℕ
  -- `_commitFn` is set
  pub commit_set : Bool

pub record Class (S D : Type 0) : Type 0 where
  pub initial : S
  -- the field `deleted`, which handlers may set
  pub deleted : S → Bool
  -- a handler of an event is a method: what it wrote before it throws stays
  pub on_apply : String → Option (Message D → Action S (Unit {0}))
  -- a rollback handler is a method: it may read and change the aggregate
  pub on_rollback : String → Option (Message D → Action (Aggregate S D) (Message D))

-- A method that throws, if at all, before it writes.
abbrev pub checked : {S : Type 0} → (S → Result S) → Action S (Unit {0})
checked f s = elim (f s) [ ok t ↦ (ok tt, t) | err e ↦ (err e, s) ]

-- `slice` from `undefined + 1`, which is `NaN`, starts at 0.
abbrev pub uncommitted_start : Option ℕ → ℕ
uncommitted_start none = 0
uncommitted_start (some i) = i + 1

abbrev spread_over : Option (Dict String) → Option (Dict String) → Option (Dict String)
spread_over old none = old
spread_over old (some m) = some (spread (or_empty old) m)

unfoldable pub stamp : {D : Type 0} → Option (Message D) → Message D → Message D
stamp none event = event
stamp (some command) event = record event {
  correlation_id = or_else event.correlation_id command.correlation_id;
  metadata = spread_over event.metadata command.metadata;
}

abbrev is_id : String → Option String → Bool
is_id id none = false
is_id id (some c) = c === id

abbrev pub correlated : {D : Type 0} → String → Message D → Bool
correlated id event = is_id id event.correlation_id

module _ {S D : Type 0} where
  unfoldable pub construct : Class S D → String → Aggregate S D
  construct cls id = record {
    stream_id = id;
    state = cls.initial;
    event_history = [];
    last_committed_index = none;
    updated_at = none;
    commit_set = false;
  }

  unfoldable pub uncommitted_event_history : Aggregate S D → List (Message D)
  uncommitted_event_history a =
      let start = uncommitted_start a.last_committed_index in
      if leb (length a.event_history) start then [] else drop start a.event_history

  -- `Reflect.getMetadata`: the handler of an event, or the throw that follows when there is none.
  abbrev handler_or_throw : {A : Type 0} → Option A → Message D → Action (Aggregate S D) A
  handler_or_throw none event = throw (unhandled_event event.name)
  handler_or_throw (some h) event = pure h

  -- From `this[handlerName].call(this, event)` on.
  apply_handler :
      Bool → Message D → (Message D → Action S (Unit {0})) → Action (Aggregate S D) (Unit {0})
  apply_handler from_history event handler = do
    called ← λ a. let (r, state) = handler event a.state in (r, record a { state = state })
    modify λ a. record a {
      event_history =
          a.event_history
          ++ record event { stream_id = or_else event.stream_id (some a.stream_id) } ∷ [];
      last_committed_index =
          if from_history then some (length a.event_history) else a.last_committed_index;
      updated_at = some event.timestamp;
    }

  unfoldable pub apply : Class S D → Message D → Bool → Action (Aggregate S D) (Unit {0})
  unfolding apply_handler
  apply cls event from_history = do
    a ← gets λ a. a
    throw_if (cls.deleted a.state && not from_history) aggregate_deleted
    handler ← handler_or_throw (cls.on_apply event.name) event
    apply_handler from_history event handler

  -- `events.forEach((event) => aggregate.apply(event, fromHistory))`
  unfoldable pub apply_all : Class S D → Bool → List (Message D) → Action (Aggregate S D) (Unit {0})
  apply_all cls from_history [] = pure tt
  apply_all cls from_history (e ∷ es) = apply cls e from_history >> apply_all cls from_history es

  -- Returns what `_commitFn` is called with. The events are objects that the history shares, so
  -- they change there too. `_lastCommittedIndex` stays as it is.
  unfoldable pub commit : Option (Message D) → Action (Aggregate S D) (List (Message D))
  commit command = do
    a ← gets λ a. a
    throw_if (not a.commit_set) unavailable_commit
    let events = map (stamp command) (uncommitted_event_history a)
    modify λ a. record a {
      event_history = take (uncommitted_start a.last_committed_index) a.event_history ++ events;
    }
    pure events

  unfoldable pub set_commit_function : Action (Aggregate S D) (Unit {0})
  set_commit_function = do
    a ← gets λ a. a
    throw_if a.commit_set invalid_multiple_set
    modify λ a. record a { commit_set = true }

  make_rollback : Class S D → String → Message D → Action (Aggregate S D) (Message D)
  make_rollback cls id event = do
    handler ← handler_or_throw (cls.on_rollback event.name) event
    e ← handler event
    pure (record e { correlation_id = some id })

  unfoldable pub make_rollbacks :
      Class S D → String → List (Message D) → Action (Aggregate S D) (List (Message D))
  unfolding make_rollback
  make_rollbacks cls id [] = pure []
  make_rollbacks cls id (e ∷ es) = do
    r ← make_rollback cls id e
    rs ← make_rollbacks cls id es
    pure (r ∷ rs)

  unfoldable pub rollback : Class S D → String → Action (Aggregate S D) ℕ
  rollback cls id = do
    a ← gets λ a. a
    events ← make_rollbacks cls id (reverse (select (correlated id) a.event_history))
    apply_all cls false events
    pure (length events)
