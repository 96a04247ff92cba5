-- ===== src/Demo/Refused.antt =====
-- The stream of a creation that is refused, once inventory-created-failed.filter.ts of demo/inventory/src/filters
-- has run.
use moirae.Base.{ℕ, String, Option, some, List, [], ◌∷◌, ◌++◌, ◌≡◌, refl, ap, sym, ◌∙◌, true}
use moirae.Base.Dict.{Dict}
use moirae.Failure.{ok}
use moirae.Message.{Message}
use moirae.Aggregate.{Aggregate, construct}
use moirae.Aggregate.History.{handle}
use moirae.Aggregate.Replay.{replay}
use moirae.Publisher.{Wire}
use moirae.Store.{MemoryStore, merge_context, read_from_stream, loaded, events_of}
use moirae.Store.Streams.{sent_by, append_to_stream-read}
use moirae.Store.Loading.{apply_all-ok_replay, replay-++, loaded-ok, loaded-inv}
use moirae.Store.RoundTrip.{streams-some}
use moirae.Demo.Integers.{ℤ}
use moirae.Demo.Account.{new_event}
use moirae.Demo.Inventory.{
  Inventory, InventoryPayload, inventory_data, failed_data, inventory_created,
  inventory_created_failed, inventory_class,
}
use moirae.Demo.Failed.{duplicate_message, failed_event, publish_event, catch_duplicate}

module _ {R : Type 0} (wire : Wire InventoryPayload R) where
  replay-failed :
      (e : Message InventoryPayload) (state : Inventory)
      → e.name ≡ inventory_created_failed
      → replay inventory_class (e ∷ []) state ≡ ok state
  unfolding replay handle inventory_class
  replay-failed e state named = rw named refl

  -- The filter appends one event to the stream of the refused creation, with what the client asked for in
  -- its metadata and data, and the message; the stream loads with the fields that it had before.
  pub catch_duplicate-loads :
      (now now' : ℕ) (uuid uuid' key id name : String) (price quantity : ℤ)
      (metadata : Option (Dict String)) (a : Aggregate Inventory InventoryPayload)
      (s : MemoryStore InventoryPayload R)
      → merge_context inventory_class id s ≡ ok a
      → let event =
          new_event now inventory_created uuid id (inventory_data now name price quantity) in
        let (r, s') = catch_duplicate wire now' uuid' key event name price quantity metadata s in
        (sent : Message InventoryPayload) × (r ≡ ok (sent ∷ []))
        × (sent.metadata ≡ metadata)
        × (sent.payload
            ≡ failed_data name price quantity
                (duplicate_message (inventory_data now name price quantity)))
        × (old : List (Message InventoryPayload)) × (read_from_stream id s ≡ ok old)
        × (read_from_stream id s' ≡ ok (old ++ sent ∷ []))
        × (c : Aggregate Inventory InventoryPayload) × (merge_context inventory_class id s' ≡ ok c)
        × (c.state ≡ a.state)
  unfolding catch_duplicate publish_event merge_context construct read_from_stream
  catch_duplicate-loads now now' uuid uuid' key id name price quantity metadata a s loads =
      let event =
        new_event now inventory_created uuid id (inventory_data now name price quantity) in
      let e = failed_event now' uuid' event name price quantity metadata in
      let sent = sent_by s.publisher.node_id e in
      let (streams, has_streams, inv) = streams-some inventory_class wire id s a loads in
      let (r, read) =
        append_to_stream-read wire (λ n. key) 0 (e ∷ []) id s streams has_streams (refl, tt) in
      let old = events_of (streams (some id)) in
      let (a₀, full, eq) = loaded-inv inventory_class old id a inv in
      let (before, _, _) =
        apply_all-ok_replay inventory_class true old (construct inventory_class id) a₀ full in
      let all : replay inventory_class (old ++ sent ∷ []) inventory_class.initial ≡ ok a₀.state =
        replay-++ inventory_class old (sent ∷ []) inventory_class.initial a₀.state before
        ∙ replay-failed sent a₀.state refl in
      let (c, again, st, _) = loaded-ok inventory_class (old ++ sent ∷ []) id a₀.state all in
      (
        sent,
        r,
        refl,
        refl,
        old,
        rw has_streams refl,
        read,
        c,
        ap (λ x. loaded inventory_class x id) read ∙ again,
        st ∙ ap (λ x. x.state) (sym eq),
      )
