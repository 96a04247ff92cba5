-- ===== src/Bus/Defs.antt =====
-- moirae/core/lib/classes/base.bus.ts and busses/command.bus.ts. `W` is what handlers act on beside the
-- bus; a handler that returns an `Error` counts as one that throws it, and the stream id in its options
-- is part of it. `Promise.all` starts the publications in order, and each touches the queue before it waits.
use moirae.Base.{ℕ, String, Option, none, some, List, [], ◌∷◌, ◌+◌}
use moirae.Base.Dict.{Dict, get}
use moirae.Failure.{Error, Result, ok, err, name, handler_not_found, Action}
use moirae.Message.{Message, or_else}
use moirae.Cache.{Handles, Json}
use moirae.Publisher.{EsState, active, idle, Publisher, Wire}
use moirae.Publisher
use moirae.Saga.{rollback_sagas, printed}

pub record CommandBus (W D V : Type 0) : Type 0 where
  pub status : EsState
  -- `execute` of the handlers, by the name of the command
  pub handlers : Dict (Message D → Action W V)
  -- `catch` of the filters, by the name of the error
  pub error_handlers : Dict (Message D → Error → Action W (Unit {0}))

module _ {W D V : Type 0} where
  -- `executeLocal` of `BaseBus`: an error of the handler is its result.
  unfoldable pub base_execute_local :
      Dict (Message D → Action W V) → Message D → Action W (Result V)
  base_execute_local handlers event w = elim (get event.name handlers) [
    | none ↦ (err handler_not_found, w)
    | some execute ↦ let (res, w') = execute event w in (ok res, w')
  ]

-- `if (!event.$executionDomain) event.$executionDomain = "default"`
abbrev pub defaulted : {D : Type 0} → Message D → Message D
defaulted event = record event {
  execution_domain = or_else event.execution_domain (some "default");
}

module _ {D R : Type 0} (wire : Wire D R) where
  unfoldable pub publish : String → Message D → Publisher D R → Result (Unit {0}) × Publisher D R
  publish uuid event p = Publisher.publish wire uuid (defaulted event) p

  abbrev first_error : Result (Unit {0}) → Result (Unit {0}) → Result (Unit {0})
  first_error (ok _) r = r
  first_error (err e) r = err e

  -- `Promise.all(rollbackCommands.map((c) => this.publish(c)))`, with the keys that the queue draws.
  unfoldable pub publish_all :
      (ℕ → String) → ℕ → List (Message D) → Publisher D R → Result (Unit {0}) × Publisher D R
  unfolding publish
  publish_all draw n [] p = (ok tt, p)
  publish_all draw n (c ∷ cs) p =
      let (r, p') = publish (draw n) c p in
      let (rs, p'') = publish_all draw (n + 1) cs p' in (first_error r rs, p'')

-- What a call of the bus may change.
pub record Scene (W D R V St : Type 0) : Type 0 where
  pub world : W
  pub bus : CommandBus W D V
  pub publisher : Publisher D R
  pub cache : St

-- `rollback` is what the saga manager makes of a correlation.
module _ {W D R V St : Type 0} (wire : Wire D R)
    (rollback : String → St → Result (List (Message D))) where
  -- `if (this._errorHandlers.has(res.name)) await ….catch(command, res)`
  catch_error : Message D → Error → Action (Scene W D R V St) (Unit {0})
  catch_error command e s = elim (get (name e) s.bus.error_handlers) [
    | none ↦ (ok tt, s)
    | some catch ↦ let (r, w) = catch command e s.world in (r, record s { world = w })
  ]

  set_status : EsState → Scene W D R V St → Scene W D R V St
  set_status status s = record s { bus = record s.bus { status = status } }

  abbrev then_idle : Result (Unit {0}) × Scene W D R V St → Result (Unit {0}) × Scene W D R V St
  then_idle (ok _, s) = (ok tt, set_status idle s)
  then_idle (err e, s) = (err e, s)

  -- What follows on an error of the handler.
  unfoldable pub fail_with : (ℕ → String) → Message D → Error → Action (Scene W D R V St) (Unit {0})
  unfolding catch_error set_status
  fail_with draw command e s = elim (rollback (printed command.correlation_id) s.cache) [
    | err x ↦ (err x, s)
    | ok commands ↦
        let (r, p) = publish_all wire draw 0 commands s.publisher in
        let s' : Scene W D R V St = record s { publisher = p } in
        elim r [ err x ↦ (err x, s') | ok _ ↦ then_idle (catch_error command e s') ]
  ]

  unfoldable pub run_local : (ℕ → String) → Message D → Action (Scene W D R V St) (Unit {0})
  unfolding set_status fail_with
  run_local draw command s =
      let s₁ = set_status active s in
      let (res, w) = base_execute_local s₁.bus.handlers command s₁.world in
      let s₂ : Scene W D R V St = record s₁ { world = w } in
      elim res [
        | err x ↦ (err x, s₂)
        | ok (ok v) ↦ (ok tt, set_status idle s₂)
        | ok (err e) ↦ fail_with draw command e s₂
      ]

module _ {W D R V St : Type 0} (json : Json String) (cache : Handles St) (wire : Wire D R)
    (constructors : Dict (Option String → String → Message D)) where
  unfoldable pub fail_command :
      (ℕ → String) → Message D → Error → Action (Scene W D R V St) (Unit {0})
  unfolding fail_with
  fail_command = fail_with wire (rollback_sagas json cache constructors)

  -- `executeLocal` of `CommandBus`, over the manager of sagas
  unfoldable pub execute_local : (ℕ → String) → Message D → Action (Scene W D R V St) (Unit {0})
  unfolding run_local
  execute_local = run_local wire (rollback_sagas json cache constructors)
