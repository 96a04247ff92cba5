-- ===== src/Demo/Controllers.antt =====
-- demo/gateway/src: account.controller.ts, inventory.controller.ts and order.controller.ts, over the
-- command bus of moirae/core/lib/busses/command.bus.ts. What the pipes of Nest validate is a hypothesis.
use moirae.Base.{
  Bool, true, if◌then◌else◌, ℕ, String, ◌===◌, false, Option, none, some, List, [], ◌∷◌, ◌++◌, ◌≡◌,
  refl, ◌∙◌, ap, arith, truthy, is_some,
}
use moirae.Base.Dict.{Dict}
use moirae.Failure.{Result, ok, Action}
use moirae.Message.{Message}
use moirae.Cache.{Handles, Json}
use moirae.Publisher.{Wire, routed}
use moirae.Publisher.Order.{WireLaws, IsNewKey, Tracks}
use moirae.Registry.Storage.{DomainStore, has_domain}
use moirae.Bus.{Scene}
use moirae.Bus.Execute.{CommandResponse, execute, execute-responds, kept, in_domains}
use moirae.Demo.Integers.{ℤ}
use moirae.Demo.Commands.{
  Body, create_account_input, funds_input, order_input, create_inventory_input, account_domain,
  inventory_domain, create_account_command, deposit_funds_command, withdraw_funds_command,
  create_order_command, create_inventory_command,
}

-- The requests that become commands, with their bodies.
pub data Request : Type 0 where
  create_account : String → Option ℤ → Request
  deposit_funds : String → ℤ → Request
  withdraw_funds : String → ℤ → Request
  -- the header x-requestorId, the name, the quantity, the price
  create_inventory : Option String → String → ℤ → ℤ → Request
  create_order : String → String → ℕ → Request

abbrev pub command_of : String → Request → Message Body
command_of uuid (create_account name balance) = create_account_command uuid name balance
command_of uuid (deposit_funds account funds) = deposit_funds_command uuid account funds
command_of uuid (withdraw_funds account funds) = withdraw_funds_command uuid account funds
command_of uuid (create_inventory requestor name quantity price) =
    create_inventory_command uuid requestor name quantity price
command_of uuid (create_order account inventory quantity) =
    create_order_command uuid account inventory quantity

-- The aggregate that a request names, and the domain that is to answer it.
abbrev pub target : Request → Option String
target (create_account name balance) = none
target (deposit_funds account funds) = some account
target (withdraw_funds account funds) = some account
target (create_inventory requestor name quantity price) = none
target (create_order account inventory quantity) = some account

abbrev pub domain_of : Request → String
domain_of (create_inventory requestor name quantity price) = inventory_domain
domain_of _ = account_domain

-- The class that a request is to become, and its input.
abbrev pub name_of : Request → String
name_of (create_account name balance) = "CreateAccountCommand"
name_of (deposit_funds account funds) = "DepositFundsCommand"
name_of (withdraw_funds account funds) = "WithdrawFundsCommand"
name_of (create_inventory requestor name quantity price) = "CreateInventoryCommand"
name_of (create_order account inventory quantity) = "CreateOrderCommand"

abbrev pub body_of : Request → Body
body_of (create_account name balance) = create_account_input name balance
body_of (deposit_funds account funds) = funds_input account funds
body_of (withdraw_funds account funds) = funds_input account funds
body_of (create_inventory requestor name quantity price) =
    create_inventory_input name quantity price
body_of (create_order account inventory quantity) = order_input account inventory quantity

-- The metadata of the command: the requestor, where there is one.
abbrev pub metadata_of : Request → Dict String
metadata_of (create_inventory (some id) name quantity price) = ("requestorId", id) ∷ []
metadata_of _ = []

-- `STREAM_ID` is a field of the classes that create something, and a getter of the others.
abbrev pub assignable : Message Body → Bool
assignable command = elim command.payload [
  | create_account_input name balance ↦ true
  | create_inventory_input name quantity price ↦ true
  | _ ↦ false
]

command_of-fields :
    (uuid : String) (r : Request)
    → ((command_of uuid r).name ≡ name_of r)
      × ((command_of uuid r).payload ≡ body_of r)
      × ((command_of uuid r).metadata ≡ some (metadata_of r))
command_of-fields uuid (create_account name balance) = (refl, refl, refl)
command_of-fields uuid (deposit_funds account funds) = (refl, refl, refl)
command_of-fields uuid (withdraw_funds account funds) = (refl, refl, refl)
command_of-fields uuid (create_inventory none name quantity price) = (refl, refl, refl)
command_of-fields uuid (create_inventory (some id) name quantity price) = (refl, refl, refl)
command_of-fields uuid (create_order account inventory quantity) = (refl, refl, refl)

-- A command that names no aggregate is of a class that lets it be assigned.
command_of-assignable :
    (uuid : String) (r : Request)
    → truthy (target r) ≡ is_some (target r)
    → (if truthy (command_of uuid r).stream_id then true else assignable (command_of uuid r)) ≡ true
command_of-assignable uuid (create_account name balance) h = refl
command_of-assignable uuid (deposit_funds account funds) h = rw h refl
command_of-assignable uuid (withdraw_funds account funds) h = rw h refl
command_of-assignable uuid (create_inventory requestor name quantity price) h = refl
command_of-assignable uuid (create_order account inventory quantity) h = rw h refl

command_of-domain :
    (uuid : String) (r : Request) → (command_of uuid r).execution_domain ≡ some (domain_of r)
command_of-domain uuid (create_account name balance) = refl
command_of-domain uuid (deposit_funds account funds) = refl
command_of-domain uuid (withdraw_funds account funds) = refl
command_of-domain uuid (create_inventory requestor name quantity price) = refl
command_of-domain uuid (create_order account inventory quantity) = refl

command_of-stream : (uuid : String) (r : Request) → (command_of uuid r).stream_id ≡ target r
command_of-stream uuid (create_account name balance) = refl
command_of-stream uuid (deposit_funds account funds) = refl
command_of-stream uuid (withdraw_funds account funds) = refl
command_of-stream uuid (create_inventory requestor name quantity price) = refl
command_of-stream uuid (create_order account inventory quantity) = refl

command_of-correlation : (uuid : String) (r : Request) → (command_of uuid r).correlation_id ≡ none
command_of-correlation uuid (create_account name balance) = refl
command_of-correlation uuid (deposit_funds account funds) = refl
command_of-correlation uuid (withdraw_funds account funds) = refl
command_of-correlation uuid (create_inventory requestor name quantity price) = refl
command_of-correlation uuid (create_order account inventory quantity) = refl

abbrev pub or_drawn : String → Option String → String
or_drawn stream none = stream
or_drawn stream (some id) = id

kept-or_drawn :
    (stream : String) (t : Option String) → truthy t ≡ is_some t → kept stream t ≡ or_drawn stream t
kept-or_drawn stream none h = refl
kept-or_drawn stream (some t) h = ground arith

module _ {W R V St : Type 0} (json : Json String) (cache : Handles St) (wire : Wire Body R)
    (constructors : Dict (Option String → String → Message Body)) (store : DomainStore) where
  -- The handler of a request: `commandBus.execute(new …Command(input))`
  unfoldable pub handle_request :
      (ℕ → String)
      → String
      → String
      → String
      → String
      → Request
      → Action (Scene W Body R V St) CommandResponse
  handle_request draw uuid id stream own r =
      execute assignable json cache wire constructors store draw uuid id stream (command_of own r)

  -- A gateway that runs no domain itself, with a publisher with one worker and ids drawn that are not
  -- empty: every request with a valid body is answered with the new correlation and with the aggregate
  -- that it names, or a new one; no handler runs here, and a command is published: of the class, with the
  -- input, the requestor and the domain that the request asks for, and with the ids of the answer.
  pub handle_request-responds :
      (draw : ℕ → String) (uuid id stream own : String) (r : Request) (s : Scene W Body R V St)
      (sent : List (Message Body))
      → (id === "") ≡ false
      → (stream === "") ≡ false
      → truthy (target r) ≡ is_some (target r)
      → has_domain (domain_of r) store ≡ false
      → WireLaws wire
      → IsNewKey uuid s.publisher
      → Tracks wire s.publisher sent
      → let (res, s') = handle_request draw uuid id stream own r s in
        let answer : CommandResponse = record {
          correlation_id = some id;
          stream_id = some (or_drawn stream (target r));
        } in
        (res ≡ ok answer)
        × (s'.world ≡ s.world)
        × (c : Message Body) × (c.name ≡ name_of r)
        × (c.payload ≡ body_of r)
        × (c.metadata ≡ some (metadata_of r))
        × (c.execution_domain ≡ some (domain_of r))
        × (c.correlation_id ≡ some id)
        × (c.stream_id ≡ some (or_drawn stream (target r)))
        × Tracks wire s'.publisher (sent ++ c ∷ [])
  unfolding handle_request routed
  handle_request-responds draw uuid id stream own r s sent named named' valid remote laws new t =
      let command = command_of own r in
      let (res, _, _, published, _) =
        execute-responds assignable json cache wire constructors store draw uuid id stream command s
          sent named named' (command_of-assignable own r valid) laws new t in
      let away : in_domains command.execution_domain store ≡ false =
        ap (λ d. in_domains d store) (command_of-domain own r) ∙ remote in
      let (same, tracks) = published away in
      let c : Message Body = record command {
        correlation_id = some (kept id command.correlation_id);
        stream_id = some (kept stream command.stream_id);
      } in
      let response : String → String → Result CommandResponse =
        λ i j. ok (record { correlation_id = some i; stream_id = some j }) in
      let (names, bodies, metadata) = command_of-fields own r in
      let ids : kept id command.correlation_id ≡ id = ap (kept id) (command_of-correlation own r) in
      let streams : kept stream command.stream_id ≡ or_drawn stream (target r) =
        ap (kept stream) (command_of-stream own r) ∙ kept-or_drawn stream (target r) valid in
      (
        res ∙ ap (λ i. response i (kept stream command.stream_id)) ids ∙ ap (response id) streams,
        same,
        routed c s.publisher,
        names,
        bodies,
        metadata,
        command_of-domain own r,
        ap some ids,
        ap some streams,
        tracks,
      )
