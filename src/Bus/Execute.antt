-- ===== src/Bus/Execute.antt =====
-- The rest of moirae/core/lib/busses/command.bus.ts and of classes/base.bus.ts: `execute`, which gives a
-- command to the bus or to the publisher, and the import of handlers and filters. `executeLocal` is not
-- awaited there; it runs to its end here, and what it throws is not seen.
use moirae.Base.{
  ℕ, String, ◌===◌, Bool, true, false, if◌then◌else◌, Option, none, some, List, [], ◌∷◌, ◌≡◌, ◌++◌,
  arith, refl, truthy,
}
use moirae.Base.Dict.{Dict, get, set}
use moirae.Failure.{Error, Result, ok, err, type_error, Action}
use moirae.Message.{Message, or_else}
use moirae.Cache.{Handles, Json}
use moirae.Observable.Messenger.{Messenger}
use moirae.Observable.Messenger
use moirae.Publisher.{Publisher, Wire, idle, routed}
use moirae.Publisher
use moirae.Registry.Storage.{DomainStore, has_domain}
use moirae.Publisher.Order.{WireLaws, IsNewKey, Tracks, publish-Tracks}
use moirae.Bus.Defs.{CommandBus, Scene, execute_local, base_execute_local}

pub record CommandResponse : Type 0 where
  pub correlation_id : Option String
  pub stream_id : Option String

abbrev pub from_command : {D : Type 0} → Message D → CommandResponse
from_command command = record {
  correlation_id = command.correlation_id;
  stream_id = command.stream_id;
}

-- `if (!command.$correlationId) …` and `if (!command.STREAM_ID) …`, with the ids that are drawn. A class whose
-- `STREAM_ID` is a getter alone is not `assignable`: the assignment throws.
abbrev pub identified : {D : Type 0} → Bool → String → String → Message D → Result (Message D)
identified assignable id stream command =
    let c = record command { correlation_id = or_else command.correlation_id (some id) } in
    if truthy command.stream_id
    then ok c
    else if assignable
    then ok (record c { stream_id = some stream })
    else err type_error

abbrev pub in_domains : Option String → DomainStore → Bool
in_domains none store = false
in_domains (some domain) store = has_domain domain store

abbrev respond : {D : Type 0} → Message D → Result (Unit {0}) → Result CommandResponse
respond command (ok _) = ok (from_command command)
respond command (err e) = err e

module _ {W D R V St : Type 0} (assignable : Message D → Bool) (json : Json String)
    (cache : Handles St) (wire : Wire D R)
    (constructors : Dict (Option String → String → Message D)) (store : DomainStore) where
  -- `id` and `stream` are drawn for the command, `draw` and `uuid` by the queue.
  unfoldable pub execute :
      (ℕ → String)
      → String
      → String
      → String
      → Message D
      → Action (Scene W D R V St) CommandResponse
  execute draw uuid id stream command s = elim (identified (assignable command) id stream command) [
    | err e ↦ (err e, s)
    | ok c ↦
        if in_domains c.execution_domain store
        then (ok (from_command c), (execute_local json cache wire constructors draw c s).1)
        else (
          respond c (Publisher.publish wire uuid c s.publisher).0,
          record s { publisher = (Publisher.publish wire uuid c s.publisher).1 },
        )
  ]

-- What the decorators say of a provider: the command that it handles, the error that it catches.
pub record Provider (W D V : Type 0) : Type 0 where
  pub handles : Option (String × (Message D → Action W V))
  pub catches : Option (String × (Message D → Error → Action W (Unit {0})))

abbrev pub also_set {ℓ} : {V : Type ℓ} → Option (String × V) → Dict V → Dict V
also_set none m = m
also_set (some (name, v)) m = set name v m

module _ {W D V : Type 0} where
  -- `handleInstanceImport`, behind the import of the handler
  unfoldable pub import_instance : Provider W D V → CommandBus W D V → CommandBus W D V
  import_instance p b = record b {
    handlers = also_set p.handles b.handlers;
    error_handlers = also_set p.catches b.error_handlers;
  }

  unfoldable pub import_all : List (Provider W D V) → CommandBus W D V → CommandBus W D V
  import_all [] b = b
  import_all (p ∷ ps) b = import_all ps (import_instance p b)

module _ {W D V R : Type 0} where
  -- `onApplicationBootstrap` of both classes, and the handlers that the messenger calls.
  unfoldable pub bootstrap :
      List (Provider W D V)
      → String
      → ℕ
      → Messenger
      → CommandBus W D V
      → Publisher D R
      → CommandBus W D V × Publisher D R × List ℕ
  bootstrap providers key listener m b p = (
    record (import_all providers b) { status = idle },
    Publisher.subscribe key listener p,
    Messenger.publish "CommandBusReadyMessage" m,
  )

-- The id that there is, if it is one, or the one drawn.
abbrev pub kept : String → Option String → String
kept drawn none = drawn
kept drawn (some own) = if own === "" then drawn else own

kept_named :
    (drawn : String) (own : Option String)
    → (drawn === "") ≡ false
    → (kept drawn own === "") ≡ false
kept_named drawn none h = h
kept_named drawn (some own) h = ground arith

or_else-kept :
    (drawn : String) (own : Option String) → or_else own (some drawn) ≡ some (kept drawn own)
or_else-kept drawn none = refl
or_else-kept drawn (some own) = ground arith

identified-kept :
    {D : Type 0} (assignable : Bool) (id stream : String) (command : Message D)
    → (if truthy command.stream_id then true else assignable) ≡ true
    → identified assignable id stream command
      ≡ ok (record command {
        correlation_id = some (kept id command.correlation_id);
        stream_id = some (kept stream command.stream_id);
      })
identified-kept assignable id stream command h =
    ground (arith, h, or_else-kept id command.correlation_id, or_else-kept stream command.stream_id)

module _ {W D R V St : Type 0} (assignable : Message D → Bool) (json : Json String)
    (cache : Handles St) (wire : Wire D R)
    (constructors : Dict (Option String → String → Message D)) (store : DomainStore) where
  -- Over a publisher with one worker, with ids drawn that are not empty, and for a command that has a
  -- stream or whose class lets it be assigned: `execute` returns the correlation and the stream of the
  -- command, its own where it has them and the drawn ones where not. A command of another domain joins
  -- what is published with these ids and no handler runs; one of a domain of this application whose handler
  -- returns leaves what the handler did with it, and nothing is published.
  pub execute-responds :
      (draw : ℕ → String) (uuid id stream : String) (command : Message D) (s : Scene W D R V St)
      (sent : List (Message D))
      → (id === "") ≡ false
      → (stream === "") ≡ false
      → (if truthy command.stream_id then true else assignable command) ≡ true
      → WireLaws wire
      → IsNewKey uuid s.publisher
      → Tracks wire s.publisher sent
      → let (r, s') =
          execute assignable json cache wire constructors store draw uuid id stream command s in
        let correlation = kept id command.correlation_id in
        let own_stream = kept stream command.stream_id in
        let c : Message D = record command {
          correlation_id = some correlation;
          stream_id = some own_stream;
        } in
        (r ≡ ok (record { correlation_id = some correlation; stream_id = some own_stream }))
        × ((correlation === "") ≡ false)
        × ((own_stream === "") ≡ false)
        × (in_domains command.execution_domain store ≡ false
            → (s'.world ≡ s.world) × Tracks wire s'.publisher (sent ++ routed c s.publisher ∷ []))
        × ((handle : Message D → Action W V) (v : V) (w : W)
            → in_domains command.execution_domain store ≡ true
            → get command.name s.bus.handlers ≡ some handle
            → handle c s.world ≡ (ok v, w)
            → s' ≡ record s { world = w; bus = record s.bus { status = idle } })
  unfolding execute execute_local base_execute_local
  execute-responds draw uuid id stream command s sent named named' settable laws new t =
      let c : Message D = record command {
        correlation_id = some (kept id command.correlation_id);
        stream_id = some (kept stream command.stream_id);
      } in
      let made = identified-kept (assignable command) id stream command settable in
      let (r, t') = publish-Tracks wire laws uuid c s.publisher sent new t in
      (
        ground (arith, made, r),
        kept_named id command.correlation_id named,
        kept_named stream command.stream_id named',
        λ remote. rw (made, remote, execute) (refl, t'),
        λ handle v w here found ran. ground (arith, made, here, found, ran),
      )
