-- ===== src/Store/Streams.antt =====
-- What a stream holds after events were appended to it.
use mathlib.Core.List.{append_assoc, append-nil}
use moirae.Base.{
  ℕ, ◌+◌, String, some, List, [], ◌∷◌, ◌++◌, map, ◌≡◌, refl, ◌∙◌, ap, All, arith, eq_iff,
}
use moirae.Failure.{ok}
use moirae.Message.{Message}
use moirae.Publisher.{Publisher, Wire, publish, routed, advance_bus}
use moirae.Store.Defs.{
  MemoryStore, Streams, events_of, push, append_event, append_to_stream, read_from_stream, label,
  also,
}

-- The event as `publish` leaves it.
abbrev pub sent_by : {D : Type 0} → String → Message D → Message D
sent_by node event = record event { routing_key = some node }

module _ {D R : Type 0} (wire : Wire D R) where
  pub publish-node_id :
      (uuid : String) (e : Message D) (p : Publisher D R)
      → (publish wire uuid e p).1.node_id ≡ p.node_id
  unfolding publish advance_bus
  publish-node_id uuid e p = ground arith

  events-push :
      (e : Message D) (streams : Streams D) (id : String)
      → e.stream_id ≡ some id
      → events_of (push e streams (some id)) ≡ events_of (streams (some id)) ++ e ∷ []
  events-push e streams id at = ground (arith, eq_iff id id)

  -- Events of one stream are appended to it in order, as they are sent, and the caller gets them back.
  pub append_to_stream-read :
      (draw : ℕ → String) (n : ℕ) (es : List (Message D)) (id : String) (s : MemoryStore D R)
      (streams : Streams D)
      → s.streams ≡ some streams
      → All (λ e. e.stream_id ≡ some id) es
      → let sent = map (sent_by s.publisher.node_id) es in
        let (r, s') = append_to_stream wire (label draw n es) s in
        (r ≡ ok sent) × (read_from_stream id s' ≡ ok (events_of (streams (some id)) ++ sent))
  unfolding append_to_stream append_event read_from_stream routed
  append_to_stream-read draw n [] id s streams has_streams at =
      (refl, ground (arith, append-nil (events_of (streams (some id)))))
  append_to_stream-read draw n (e ∷ es) id s streams has_streams at =
      let next = append_event wire (draw n) e streams s in
      let sent_e = routed e s.publisher in
      let old = events_of (streams (some id)) in
      let node = publish-node_id (draw n) e s.publisher in
      let (r, read) =
        append_to_stream-read draw (n + 1) es id next (push sent_e streams) refl at.1 in
      rw has_streams (
        ap (also sent_e) (r ∙ ap (λ m. ok (map (sent_by m) es)) node),
        read
            ∙ ap (λ m. ok (events_of (push sent_e streams (some id)) ++ map (sent_by m) es)) node
            ∙ ap (λ l. ok (l ++ map (sent_by s.publisher.node_id) es))
                (events-push sent_e streams id at.0)
            ∙ ap ok (append_assoc old (sent_e ∷ []) (map (sent_by s.publisher.node_id) es)),
      )
