-- ===== src/Rabbit/Delivery.antt =====
-- What becomes of a message that the broker delivers to a worker.
use mathlib.Core.List.{◌++◌ as append, append_assoc, append-nil}
use moirae.Base.{
  ℕ, ◌==◌, if◌then◌else◌, true, false, none, some, [], ◌∷◌, ◌≡◌, arith, ap, ◌∙◌, select, eq_iff,
}
use moirae.Base.Dict.{get, get-set, has-delete}
use moirae.Failure.{ok}
use moirae.AsyncMap
use moirae.AsyncMap.Live.{set-map}
use moirae.Observable.Emitter.{member}
use moirae.Observable.Distributor.{listener_count}
use moirae.Observable.Distributor
use moirae.Publisher.{idle, is_idle, Wire}
use moirae.Rabbit.Channel.{Delivery, ack, reject}
use moirae.Rabbit.Publisher.{
  RabbitPublisher, on_message, settle, answer, acknowledge_event, handle_acknowledge, distribute,
}

module _ {D R : Type 0} (wire : Wire D R) where
  -- A worker is subscribed, no call runs, and a message arrives whose event asks for no response. When
  -- the worker returns, the message is acknowledged once and forgotten. If the publisher was not idle
  -- when it arrived, the message was rejected and put back in its queue before, and yet handed over.
  pub on_message-settle :
      (msg : Delivery) (res : R) (h : ℕ) (p : RabbitPublisher D R)
      → (listener_count p.distributor == 0) ≡ false
      → select (λ g. member g p.workers) (Distributor.publish p.distributor p.ee) ≡ h ∷ []
      → p.running ≡ []
      → (wire.parse_event msg.content).response_key ≡ none
      → let event = wire.parse_event msg.content in
        let p₁ = on_message wire (some msg) p in
        let (r, p₂) = settle wire res p₁ in
        (p₁.running ≡ event ∷ [])
        × (r ≡ ok tt)
        × (p₂.status ≡ idle)
        × (p₂.running ≡ [])
        × (AsyncMap.has event.uuid p₂.active_inbound ≡ false)
        × (p₂.calls
            ≡ append p.calls (
                if is_idle p.status
                then ack msg.tag ∷ []
                else reject msg.tag true ∷ ack msg.tag ∷ []))
  unfolding on_message settle answer acknowledge_event handle_acknowledge distribute AsyncMap.lookup
      AsyncMap.has AsyncMap.delete
  on_message-settle msg res h p on one still silent =
      let event = wire.parse_event msg.content in
      let key = event.uuid in
      let m = AsyncMap.set key msg p.active_inbound in
      let held : get key m.map ≡ some msg =
        ap (get key) (set-map key msg p.active_inbound)
        ∙ ground (arith, get-set key key msg p.active_inbound.map, eq_iff key key) in
      (
        ground (arith, still, one),
        ground (arith, still, one, silent),
        ground (arith, still, one, silent, held),
        ground (arith, still, one, silent, held),
        ground (arith, still, one, silent, held, has-delete key key m.map, eq_iff key key),
        ground (
          arith,
          on,
          still,
          one,
          silent,
          held,
          append-nil p.calls,
          append_assoc p.calls (reject msg.tag true ∷ []) (ack msg.tag ∷ []),
        ),
      )
