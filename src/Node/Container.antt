-- ===== src/Node/Container.antt =====
-- moirae/node-plugin/lib/classes/container.class.ts and saga-manager-mock.class.ts, and
-- interfaces/register-container-input.interface.ts. `V` is what command handlers return, `Q` what query
-- handlers do.
use moirae.Base.{String, Option, none, some, List, [], ◌∷◌, ◌++◌}
use moirae.Base.Dict.{Dict}
use moirae.Failure.{Result, ok, Action}
use moirae.Message.{Message}
use moirae.Bus.Execute.{also_set}

-- What is registered, by its role: the class that is handled, by name, and the instance if there is one.
pub data Registered (W D V Q : Type 0) : Type 0 where
  command_handler : String → Option (Message D → Action W V) → Registered W D V Q
  query_handler : String → Option (Message D → Action W Q) → Registered W D V Q

abbrev pub Container : (W D V Q : Type 0) → Type 0
Container W D V Q = List (Registered W D V Q)

abbrev named {ℓ} : {A : Type ℓ} → String → Option A → Option (String × A)
named name none = none
named name (some a) = some (name, a)

module _ {W D V Q : Type 0} where
  abbrev pub new_container : Container W D V Q
  new_container = []

  abbrev pub get_instances : Container W D V Q → List (Registered W D V Q)
  get_instances c = c

  unfoldable pub register : Registered W D V Q → Container W D V Q → Container W D V Q
  register r c = c ++ r ∷ []

  -- What the `filter` and the `forEach` of the bootstraps make of one registration.
  abbrev pub command_of : Registered W D V Q → Option (String × (Message D → Action W V))
  command_of (command_handler name instance) = named name instance
  command_of (query_handler name instance) = none

  abbrev pub query_of : Registered W D V Q → Option (String × (Message D → Action W Q))
  query_of (command_handler name instance) = none
  query_of (query_handler name instance) = named name instance

  unfoldable pub command_handlers :
      List (Registered W D V Q) → Dict (Message D → Action W V) → Dict (Message D → Action W V)
  command_handlers [] m = m
  command_handlers (r ∷ rs) m = command_handlers rs (also_set (command_of r) m)

  unfoldable pub query_handlers :
      List (Registered W D V Q) → Dict (Message D → Action W Q) → Dict (Message D → Action W Q)
  query_handlers [] m = m
  query_handlers (r ∷ rs) m = query_handlers rs (also_set (query_of r) m)

-- `rollbackSagas` of the mock of the saga manager
unfoldable pub mock_rollback_sagas : {D St : Type 0} → String → St → Result (List (Message D))
mock_rollback_sagas id s = ok []
