-- ===== src/Store/RoundTrip.antt =====
-- What was committed is loaded again: aggregate.factory.ts over memory.store.ts.
use moirae.Base.{
  ℕ, String, ◌===◌, true, false, Option, none, some, List, [], ◌∷◌, ◌++◌, map, ◌≡◌, refl, ◌∙◌, sym,
  ap, All, arith, ◌⊎◌, inl, inr, length, length-map, Option-cases,
}
use moirae.Failure.{ok}
use moirae.Message.{Message}
use moirae.Aggregate.{
  Class, Aggregate, construct, apply_all, commit, stamp, uncommitted_event_history,
}
use moirae.Aggregate.Replay.{replay}
use moirae.Aggregate.Commit.{place, apply_all-stored, apply_all-new, uncommitted-drop, commit-ok}
use moirae.Publisher.{Wire}
use moirae.Store.Defs.{
  MemoryStore, Streams, events_of, append_to_stream, read_from_stream, commit_events, merge_context,
  loaded, save, label,
}
use moirae.Store.Streams.{sent_by, append_to_stream-read}
use moirae.Store.Loading.{
  Agree, IsPayloadOnly, apply_all-ok_replay, replay-++, replay-map, loaded-ok, loaded-inv,
}

module _ {S D : Type 0} (cls : Class S D) where
  -- The event belongs to the stream, or to none yet.
  abbrev pub IsOwn : String → Message D → Type 0
  IsOwn id e = (e.stream_id ≡ none) ⊎ (e.stream_id ≡ some id)

  place-stream_id :
      (id : String) (e : Message D)
      → (id === "") ≡ false
      → IsOwn id e
      → (place cls id e).stream_id ≡ some id
  place-stream_id id e named (inl q) = ground (arith, q)
  place-stream_id id e named (inr q) = ground (arith, q)

  stamp-stream_id :
      (command : Option (Message D)) (e : Message D)
      → ((stamp command e).stream_id ≡ e.stream_id) × Agree cls (stamp command e) e
  unfolding stamp
  stamp-stream_id none e = (refl, (refl, refl, refl, refl))
  stamp-stream_id (some c) e = (refl, (refl, refl, refl, refl))

  abbrev outgoing : Option (Message D) → String → List (Message D) → List (Message D)
  outgoing command id new = map (stamp command) (map (place cls id) new)

  outgoing-at :
      (command : Option (Message D)) (id : String) (new : List (Message D))
      → (id === "") ≡ false
      → All (IsOwn id) new
      → All (λ e. e.stream_id ≡ some id) (outgoing command id new)
  outgoing-at command id [] named own = tt
  outgoing-at command id (e ∷ new) named own = (
    (stamp-stream_id command (place cls id e)).0 ∙ place-stream_id id e named own.0,
    outgoing-at command id new named own.1,
  )

  replay-outgoing :
      (command : Option (Message D)) (id node : String) (new : List (Message D)) (s : S)
      → IsPayloadOnly cls
      → replay cls (map (sent_by node) (outgoing command id new)) s ≡ replay cls new s
  replay-outgoing command id node new s blind =
      replay-map cls (sent_by node) (outgoing command id new) s blind
        (λ e. (refl, refl, refl, refl))
      ∙ replay-map cls (stamp command) (map (place cls id) new) s blind
          (λ e. (stamp-stream_id command e).1)
      ∙ replay-map cls (place cls id) new s blind (λ e. (refl, refl, refl, refl))

  -- A loaded aggregate hands over its new events.
  commit-loaded :
      (id : String) (events new : List (Message D)) (command : Option (Message D))
      (a b : Aggregate S D)
      → loaded cls (ok events) id ≡ ok a
      → apply_all cls false new a ≡ (ok tt, b)
      → (commit command b).0 ≡ ok (outgoing command id new)
  unfolding construct
  commit-loaded id events new command a b h k =
      let (a₀, full, eq) = loaded-inv cls events id a h in
      let (m, u, i) = apply_all-stored cls events (construct cls id) a₀ (omega arith) refl full in
      let a' : Aggregate S D = record a₀ { commit_set = true } in
      let k' : apply_all cls false new a' ≡ (ok tt, b) = rw eq at k in
      let (_, v) = apply_all-new cls new a' b m k' in
      let (_, set, _) = apply_all-ok_replay cls false new a' b k' in
      ap (λ r. r.0) (commit-ok command b set)
      ∙ ap (λ l. ok (map (stamp command) l)) (uncommitted-drop b ∙ v ∙ rw (u, i) refl)

module _ {S D R : Type 0} (cls : Class S D) (wire : Wire D R) where
  pub streams-some :
      (id : String) (s : MemoryStore D R) (a : Aggregate S D)
      → merge_context cls id s ≡ ok a
      → (streams : Streams D) × (s.streams ≡ some streams)
        × (loaded cls (ok (events_of (streams (some id)))) id ≡ ok a)
  unfolding merge_context read_from_stream
  streams-some id s a h = elim (Option-cases s.streams) [
    | inl e ↦ absurd (ground (arith, e, h))
    | inr (streams, e) ↦ (streams, e, (rw e at h))
  ]

  save-eq :
      (draw : ℕ → String) (command : Option (Message D)) (b : Aggregate S D) (s : MemoryStore D R)
      (events : List (Message D))
      → (commit command b).0 ≡ ok events
      → save wire draw command b s ≡ append_to_stream wire (label draw 0 events) s
  unfolding save commit_events
  save-eq draw command b s events h = rw (h, save) refl

  -- Load an aggregate, apply new events to it and commit them: loading it again gives an aggregate with
  -- the same fields and nothing uncommitted. The commit returns one event for each new one. The events
  -- have no stream or that of the aggregate, and the handlers read only the name, uuid, timestamp and
  -- payload of an event.
  pub save-merge_context :
      (id : String) (draw : ℕ → String) (command : Option (Message D)) (new : List (Message D))
      (a b : Aggregate S D) (s : MemoryStore D R)
      → IsPayloadOnly cls
      → (id === "") ≡ false
      → All (IsOwn cls id) new
      → merge_context cls id s ≡ ok a
      → apply_all cls false new a ≡ (ok tt, b)
      → let (r, s') = save wire draw command b s in
        (sent : List (Message D)) × (r ≡ ok sent)
        × (length sent ≡ length new)
        × (c : Aggregate S D) × (merge_context cls id s' ≡ ok c)
        × (c.state ≡ b.state)
        × (uncommitted_event_history c ≡ [])
  unfolding merge_context construct
  save-merge_context id draw command new a b s blind named own h k =
      let (streams, has_streams, inv) = streams-some id s a h in
      let old = events_of (streams (some id)) in
      let events = outgoing cls command id new in
      let sent = map (sent_by s.publisher.node_id) events in
      let (r, read) =
        append_to_stream-read wire draw 0 events id s streams has_streams
          (outgoing-at cls command id new named own) in
      let (a₀, full, eq) = loaded-inv cls old id a inv in
      let (r₀, _, _) = apply_all-ok_replay cls true old (construct cls id) a₀ full in
      let (r₁, _, _) = apply_all-ok_replay cls false new a b k in
      let all : replay cls (old ++ sent) cls.initial ≡ ok b.state =
        replay-++ cls old sent cls.initial a₀.state r₀
        ∙ replay-outgoing cls command id s.publisher.node_id new a₀.state blind
        ∙ ap (λ x. replay cls new x.state) (sym eq)
        ∙ r₁ in
      let (c, ld, st, un) = loaded-ok cls (old ++ sent) id b.state all in
      rw (save-eq draw command b s events (commit-loaded cls id old new command a b inv k)) (
        sent,
        r,
        length-map (sent_by s.publisher.node_id) events
            ∙ length-map (stamp command) (map (place cls id) new)
            ∙ length-map (place cls id) new,
        c,
        ap (λ x. loaded cls x id) read ∙ ld,
        st,
        un,
      )
