-- ===== src/Bus/Queries.antt =====
-- moirae/core/lib/busses/query.bus.ts. An answer may be an error: a handler that throws answers with it.
use moirae.Base.{ℕ, String, Bool, if◌then◌else◌, Option, none, some}
use moirae.Base.Dict.{Dict}
use moirae.Failure.{Error, Result, ok, err, Action}
use moirae.Message.{Message}
use moirae.Registry.Storage.{DomainStore}
use moirae.Publisher.{Publisher, Response, Wire, routed, settle, idle, active}
use moirae.Publisher
use moirae.Publisher.Responses.{await_response, go_on}
use moirae.Bus.Defs.{base_execute_local}
use moirae.Bus.Execute.{in_domains}

-- `query.$responseKey = _key`
abbrev pub keyed : {D : Type 0} → String → Message D → Message D
keyed key query = record query { response_key = some key }

-- What goes back for an answer: `if (payload instanceof Error && throwError) throw payload`. `error_of`
-- is the error that an answer is, if it is one.
abbrev pub answered : {V : Type 0} → (V → Option Error) → Bool → V → Result V
answered error_of throw_error v = elim (error_of v) [
  | none ↦ ok v
  | some e ↦ if throw_error then err e else ok v
]

-- What a query may change.
pub record Desk (W D R : Type 0) : Type 0 where
  pub world : W
  pub publisher : Publisher D R

-- An answer, or the wait for a response.
pub data Reply (V : Type 0) : Type 0 where
  replied : Result V → Reply V
  waits : Reply V

module _ {V : Type 0} (error_value : Error → V) where
  -- What `BaseBus.executeLocal` returns: an error that the handler throws is a value.
  abbrev pub local_reply : Result (Result V) → Result V
  local_reply (err e) = err e
  local_reply (ok (ok v)) = ok v
  local_reply (ok (err e)) = ok (error_value e)

module _ {V : Type 0} (error_of : V → Option Error) where
  abbrev pub awaited : Bool → Option (Option (Response V)) → Reply V
  awaited throw_error none = waits
  awaited throw_error (some none) = waits
  awaited throw_error (some (some r)) = replied (answered error_of throw_error r.payload)

  abbrev pub resumed : Bool → Option (Result (Response V)) → Reply V
  resumed throw_error none = waits
  resumed throw_error (some (err e)) = replied (err e)
  resumed throw_error (some (ok r)) = replied (answered error_of throw_error r.payload)

module _ {W D V : Type 0} (wire : Wire D V) (error_value : Error → V) (error_of : V → Option Error)
    (handlers : Dict (Message D → Action W V)) (store : DomainStore) where
  -- `execute` until the response is there: `key` is the response key that it draws, `uuid` that of the
  -- queue, `id` and `listener` those of the wait.
  unfoldable pub execute :
      Bool → String → String → String → ℕ → Message D → Desk W D V → Reply V × Desk W D V
  execute throw_error key uuid id listener query s =
      let q = keyed key query in
      if in_domains q.execution_domain store
      then (let (r, w) = base_execute_local handlers q s.world in
          (replied (local_reply error_value r), record s { world = w }))
      else (let (r, p) = Publisher.publish wire uuid q s.publisher in
          elim r [
            | err e ↦ (replied (err e), record s { publisher = p })
            | ok _ ↦
                let (found, p') = await_response id listener key p in
                (awaited error_of throw_error found, record s { publisher = p' })
          ])

  -- The rest of `execute`, when the wait is resolved.
  unfoldable pub finish : Bool → String → String → Desk W D V → Reply V × Desk W D V
  finish throw_error key id s =
      let (r, p) = go_on id key s.publisher in
      (resumed error_of throw_error r, record s { publisher = p })
