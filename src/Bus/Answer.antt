-- ===== src/Bus/Answer.antt =====
-- A query that another application answers: query.bus.ts over base.publisher.ts, the memory publisher and
-- async-map.class.ts.
use moirae.Base.{
  ℕ, String, ◌===◌, Bool, true, false, if◌then◌else◌, Option, none, some, List, [], ◌∷◌, ◌≡◌, refl,
  arith, ap, ◌∙◌, inl, inr,
}
use moirae.Base.Dict.{Dict, get}
use moirae.Failure.{Error, ok, err, Action}
use moirae.Message.{Message}
use moirae.AsyncMap
use moirae.AsyncMap.Live.{Live}
use moirae.AsyncMap.History.{IsNew}
use moirae.Registry.Storage.{DomainStore}
use moirae.Publisher.{Response, Wire, routed, settle, idle, handle_response}
use moirae.Publisher.Order.{WireLaws, IsNewKey, Tracks, publish-quiet, handed}
use moirae.Publisher.Drain.{settle-last}
use moirae.Publisher.Responses.{await_response, await-respond_at, go_on_eq}
use moirae.Bus.Defs.{base_execute_local}
use moirae.Bus.Execute.{in_domains}
use moirae.Bus.Queries.{keyed, Desk, replied, waits, resumed, execute, finish}

module _ {W D V : Type 0} (wire : Wire D V) (error_value : Error → V) (error_of : V → Option Error)
    (handlers : Dict (Message D → Action W V)) (store : DomainStore) where
  -- A query for another domain, over a quiet publisher with one worker, with ids drawn that are not in
  -- use, and where a response comes back from its text: `execute` waits; the worker that then answers is the
  -- one that the query runs on; and when the call goes on it gives that answer, or throws it if it is an
  -- error and errors are to be thrown. Nothing is left in the map of responses.
  pub execute-finish :
      (throw_error : Bool) (key uuid id : String) (listener : ℕ) (query : Message D) (v : V)
      (s : Desk W D V) (sent : List (Message D))
      → WireLaws wire
      → ((r : Response V) → wire.parse_response (wire.serialize_response r) ≡ r)
      → in_domains query.execution_domain store ≡ false
      → query.disable_response ≡ false
      → (key === "") ≡ false
      → (s.publisher.node_id === "") ≡ false
      → IsNewKey uuid s.publisher
      → (t : Tracks wire s.publisher sent) → s.publisher.status ≡ idle
      → s.publisher.running ≡ []
      → Live s.publisher.response_map
      → IsNew id listener s.publisher.response_map
      → AsyncMap.has key s.publisher.response_map ≡ false
      → let (r₁, s₁) =
          execute wire error_value error_of handlers store throw_error key uuid id listener query
            s in
        let s₂ : Desk W D V = record s₁ { publisher = (settle wire v s₁.publisher).1 } in
        let (r₂, s₃) = finish wire error_value error_of handlers store throw_error key id s₂ in
        (r₁ ≡ waits)
        × (s₁.publisher.running ≡ routed (keyed key query) s.publisher ∷ [])
        × (r₂
            ≡ replied
                (elim (error_of v) [ none ↦ ok v | some e ↦ if throw_error then err e else ok v ]))
        × (AsyncMap.has key s₃.publisher.response_map ≡ false)
  unfolding execute finish await_response routed
  execute-finish throw_error key uuid id listener query v s sent laws back remote wanted named
        named' new t st run live fresh out =
      let q = keyed key query in
      let p = s.publisher in
      let quiet : t.cells ≡ [] = elim t.phase [
        | inl (still, still', none_waits) ↦ none_waits
        | inr (busy, e, runs) ↦ absurd (ground (arith, st, busy))
      ] in
      let (rest, sends, empty) = publish-quiet wire laws uuid q p sent new t st run quiet in
      let p₀ = handed wire p rest (wire.serialize_event (routed q p)) in
      let runs : p₀.running ≡ routed q p ∷ [] =
        ap (λ e. e ∷ []) (laws.parse-serialize (routed q p)) in
      let res : Response V = record { payload = v; response_key = key; routing_key = p.node_id } in
      let text = wire.serialize_response res in
      let p₁ = (await_response id listener key p₀).1 in
      let (found, returns, gone) =
        await-respond_at wire id listener text res p₀ (back res) live fresh out in
      let answers =
        settle-last wire v p₁ (routed q p) key p.node_id rest runs refl empty wanted refl refl named
          named' in
      let (same, left) =
        go_on_eq id key (settle wire v p₁).1 (handle_response wire text p₁) answers in
      let waiting : execute wire error_value error_of handlers store throw_error key uuid id
            listener query s
          ≡ (waits, record s { publisher = p₁ }) =
        ground (arith, remote, sends, found) in
      rw waiting (
        refl,
        runs,
        ap (resumed error_of throw_error) (same ∙ returns),
        ap (AsyncMap.has key) left ∙ gone,
      )

  -- A query of this application's own domain whose handler throws: the error is returned as a value, also
  -- where errors are to be thrown, and nothing is published.
  pub execute-returns_error :
      (throw_error : Bool) (key uuid id : String) (listener : ℕ) (query : Message D)
      (s : Desk W D V) (handle : Message D → Action W V) (e : Error) (w : W)
      → in_domains query.execution_domain store ≡ true
      → get query.name handlers ≡ some handle
      → handle (keyed key query) s.world ≡ (err e, w)
      → execute wire error_value error_of handlers store throw_error key uuid id listener query s
        ≡ (replied (ok (error_value e)), record s { world = w })
  unfolding execute base_execute_local
  execute-returns_error throw_error key uuid id listener query s handle e w here found threw =
      ground (arith, here, found, threw)
