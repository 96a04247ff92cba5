-- ===== src/Tests/Node.antt =====
-- A plugin with two handlers of commands and one of queries.
use moirae.Base.{ℕ, suc, none, List, [], ◌∷◌}
use moirae.Failure.{Action, ok, err, custom}
use moirae.Message.{Message}
use moirae.Observable.Messenger
use moirae.Publisher.{Publisher}
use moirae.Publisher
use moirae.Bus
use moirae.Node.Plugin.{PluginConfig}
use moirae.Node.Equivalence.{Injection, of_command, of_query}
use moirae.Tests.Publisher.{new}

abbrev config : PluginConfig ℕ ℕ
config = record {
  domains = "account" ∷ [];
  get_command_publisher = λ domains messenger. new;
  get_query_publisher = λ domains messenger. new;
  messenger_service = none;
}

abbrev refuse : Message ℕ → Action ℕ ℕ
refuse c w = (err (custom "Full"), w)

abbrev accept : Message ℕ → Action ℕ ℕ
accept c w = (ok 0, suc w)

abbrev injections : List (Injection ℕ ℕ ℕ ℕ)
injections = of_command refuse "order" ∷ of_query refuse "order" ∷ of_command accept "order" ∷ []
