-- ===== src/Store/Defs.antt =====
-- moirae/core/lib/stores/memory.store.ts and factories/aggregate.factory.ts. An event is one object for
-- the stream, the publisher and the caller: what `publish` writes to it is in the stream too.
use moirae.Base.{
  ℕ, ◌+◌, String, ◌===◌, Bool, true, false, Option, none, some, List, [], ◌∷◌, ◌++◌, if◌then◌else◌,
}
use moirae.Failure.{Result, ok, err, type_error, ◌>>◌}
use moirae.Message.{Message}
use moirae.Aggregate.{Class, Aggregate, construct, apply_all, commit, set_commit_function}
use moirae.Publisher.{Publisher, Wire, publish, routed}
use moirae.Publisher

-- `Map<string, IEvent[]>`, also at the key `undefined`.
abbrev pub Streams : Type 0 → Type 0
Streams D = Option String → Option (List (Message D))

pub record MemoryStore (D R : Type 0) : Type 0 where
  pub publisher : Publisher D R
  -- made by the bootstrap
  pub streams : Option (Streams D)

abbrev pub is_key : Option String → Option String → Bool
is_key none none = true
is_key none (some j) = false
is_key (some k) none = false
is_key (some k) (some j) = k === j

abbrev pub events_of : {D : Type 0} → Option (List (Message D)) → List (Message D)
events_of none = []
events_of (some es) = es

-- `this._streams.get(key).push(event)`, on a new array where there is none
abbrev pub push : {D : Type 0} → Message D → Streams D → Streams D
push event streams key =
    if is_key event.stream_id key then some (events_of (streams key) ++ event ∷ []) else streams key

abbrev pub also : {D : Type 0} → Message D → Result (List (Message D)) → Result (List (Message D))
also event (ok es) = ok (event ∷ es)
also event (err e) = err e

abbrev pub label : {D : Type 0} → (ℕ → String) → ℕ → List (Message D) → List (String × Message D)
label draw n [] = []
label draw n (e ∷ es) = (draw n, e) ∷ label draw (n + 1) es

module _ {D R : Type 0} where
  unfoldable pub bootstrap : MemoryStore D R → MemoryStore D R
  bootstrap s = record { publisher = Publisher.bootstrap s.publisher; streams = some (λ key. none) }

  unfoldable pub read_from_stream : String → MemoryStore D R → Result (List (Message D))
  read_from_stream id s = elim s.streams [
    | none ↦ err type_error
    | some streams ↦ ok (events_of (streams (some id)))
  ]

module _ {D R : Type 0} (wire : Wire D R) where
  -- One round of the `map`: a publish that throws is a promise that `allSettled` passes over.
  unfoldable pub append_event : String → Message D → Streams D → MemoryStore D R → MemoryStore D R
  append_event uuid event streams s = record {
    publisher = (publish wire uuid event s.publisher).1;
    streams = some (push (routed event s.publisher) streams);
  }

  -- The events, each with the key that the queue of the publisher draws.
  unfoldable pub append_to_stream :
      List (String × Message D) → MemoryStore D R → Result (List (Message D)) × MemoryStore D R
  unfolding append_event
  append_to_stream [] s = (ok [], s)
  append_to_stream ((uuid, event) ∷ es) s = elim s.streams [
    | none ↦ (err type_error, s)
    | some streams ↦
        let (r, s') = append_to_stream es (append_event uuid event streams s) in
        (also (routed event s.publisher) r, s')
  ]

  -- `commitEvents` of the factory
  unfoldable pub commit_events :
      List (String × Message D) → MemoryStore D R → Result (List (Message D)) × MemoryStore D R
  unfolding append_to_stream
  commit_events = append_to_stream

  -- `commit` of an aggregate whose commit function is `commitEvents` of the factory.
  unfoldable pub save :
      {S : Type 0}
      → (ℕ → String)
      → Option (Message D)
      → Aggregate S D
      → MemoryStore D R
      → Result (List (Message D)) × MemoryStore D R
  unfolding commit_events
  save draw command a s = elim (commit command a).0 [
    | ok events ↦ commit_events (label draw 0 events) s
    | err e ↦ (err e, s)
  ]

module _ {S D : Type 0} (cls : Class S D) where
  unfoldable pub loaded : Result (List (Message D)) → String → Result (Aggregate S D)
  loaded (err e) id = err e
  loaded (ok events) id =
      let (r, a) = (apply_all cls true events >> set_commit_function) (construct cls id) in
      elim r [ ok _ ↦ ok a | err e ↦ err e ]

module _ {S D R : Type 0} (cls : Class S D) where
  unfoldable pub merge_context : String → MemoryStore D R → Result (Aggregate S D)
  unfolding loaded
  merge_context id s = loaded cls (read_from_stream id s) id
