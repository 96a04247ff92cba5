-- ===== src/Tests/Aggregate.antt =====
-- Aggregates of a sample class: a balance that deposits raise, which can be rolled back.
use moirae.Base.{
  ℕ, ◌+◌, ◌-◌, String, ◌≡◌, refl, none, some, List, [], ◌∷◌, ◌===◌, ◌==◌, if◌then◌else◌, true,
  false, arith, map, ap, ◌∙◌, length, All, ◌++◌, select,
}
use mathlib.Core.List.{reverse}
use moirae.Failure.{Action, ok, err, unhandled_event}
use moirae.Message.{Message}
use moirae.Aggregate.{
  Class, Aggregate, construct, apply, apply_all, rollback, uncommitted_event_history, correlated,
  make_rollbacks,
}
use moirae.Aggregate.History.{handle}
use moirae.Aggregate.Replay.{replay}
use moirae.Aggregate.Commit.{uncommitted-apply_all, place}
use moirae.Aggregate.Rollback.{KeepsAggregate, IsFinal, IsRolled, Undone, rollback-ok}
use moirae.Aggregate.Rollback.Again.{rollback_again}
use moirae.Aggregate.Prior.{
  get_aggregate_prior_to, get_aggregate_prior_to_appends, get_aggregate_prior_to_diverges,
}

abbrev event : String → String → ℕ → Message ℕ
event name uuid amount = record {
  name = name;
  uuid = uuid;
  stream_id = none;
  correlation_id = some "c1";
  metadata = none;
  execution_domain = none;
  response_key = none;
  routing_key = none;
  disable_response = false;
  timestamp = 5;
  payload = amount;
}

abbrev withdrawal : Message ℕ → Action (Aggregate ℕ ℕ) (Message ℕ)
withdrawal e a = (ok (record e { name = "withdrawn"; uuid = "r" }), a)

abbrev account : Class ℕ ℕ
account = record {
  initial = 0;
  deleted = λ s. s == 100;
  on_apply = λ n.
      if n === "deposited"
      then some (λ e s. (ok tt, s + e.payload))
      else (if n === "withdrawn" then some (λ e s. (ok tt, s - e.payload)) else none);
  on_rollback = λ n. if n === "deposited" then some withdrawal else none;
}

keeps : KeepsAggregate account
keeps e h a found = ground arith

final : IsFinal account
final e r h a b found made =
    let same : withdrawal ≡ h = ground arith in
    let made' : withdrawal e a ≡ (ok r, b) = ap (λ g. g e a) same ∙ made in
    let it : record e { name = "withdrawn"; uuid = "r" } ≡ r = ground arith in rw (← it) refl

abbrev deposits : List (Message ℕ)
deposits = event "deposited" "u1" 5 ∷ event "deposited" "u2" 7 ∷ []

abbrev stored : Aggregate ℕ ℕ
stored = (apply_all account true (event "deposited" "u0" 1 ∷ []) (construct account "s")).1

abbrev loaded : Aggregate ℕ ℕ
loaded = record stored { commit_set = true }

abbrev spent : Aggregate ℕ ℕ
spent = (apply_all account false deposits loaded).1

abbrev rolled : Aggregate ℕ ℕ
rolled = (rollback account "c1" spent).1

spent-state : (spent.state ≡ 13) × (rolled.state ≡ 0)
unfolding apply_all construct apply rollback make_rollbacks
spent-state = (refl, refl)

uncommitted-apply_all_example :
    uncommitted_event_history (apply_all account false deposits stored).1
    ≡ map (place account "s") deposits
unfolding apply_all construct apply
uncommitted-apply_all_example =
    uncommitted-apply_all account "s" (event "deposited" "u0" 1 ∷ []) deposits stored
      (apply_all account false deposits stored).1 refl refl

rollback-ok_example :
    (3 ≡ length (select (correlated "c1") spent.event_history))
    × (rs : List (Message ℕ)) × (length rs ≡ 3)
    × All (IsRolled account "c1") rs
    × Undone account "c1" spent (reverse (select (correlated "c1") spent.event_history)) rs
    × (rolled.event_history ≡ spent.event_history ++ map (place account "s") rs)
    × (apply_all account false rs spent ≡ (ok tt, rolled))
unfolding apply_all construct apply rollback make_rollbacks
rollback-ok_example = rollback-ok account "c1" spent rolled 3 keeps final refl

rollback_again_example :
    (x : String) × (rollback account "c1" rolled ≡ (err (unhandled_event x), rolled))
unfolding apply_all construct apply rollback make_rollbacks
rollback_again_example = rollback_again account "c1" spent rolled 3 keeps final refl (omega arith)

abbrev fresh_account : Aggregate ℕ ℕ
fresh_account = (apply_all account false deposits (construct account "s")).1

get_aggregate_prior_to_appends_example :
    (copy : Aggregate ℕ ℕ) × (history : List (Message ℕ)) × (get_aggregate_prior_to account 3
        (event "deposited" "u2" 7)
        fresh_account
      ≡ some (ok copy, history))
    × (copy.state ≡ 17)
    × (history
        ≡ fresh_account.event_history
          ++ map
              (place account "s")
              (record (event "deposited" "u1" 5) { stream_id = some "s" } ∷ []))
    × ((fields : ℕ)
        → uncommitted_event_history
            (record fresh_account { state = fields; event_history = history })
          ≡ uncommitted_event_history fresh_account
            ++ map
                (place account "s")
                (record (event "deposited" "u1" 5) { stream_id = some "s" } ∷ []))
unfolding apply_all construct apply replay handle
get_aggregate_prior_to_appends_example =
    get_aggregate_prior_to_appends account fresh_account
      (record (event "deposited" "u1" 5) { stream_id = some "s" } ∷ []) []
      (record (event "deposited" "u2" 7) { stream_id = some "s" }) (event "deposited" "u2" 7) 17 3
      refl refl (refl, tt) refl (omega arith) (omega arith)

get_aggregate_prior_to_diverges_example :
    get_aggregate_prior_to account 50 (event "deposited" "u9" 7) fresh_account ≡ none
unfolding apply_all construct apply handle
get_aggregate_prior_to_diverges_example =
    get_aggregate_prior_to_diverges account fresh_account (event "deposited" "u9" 7) 50
      ((λ id s. (s + 5, refl)), ((λ id s. (s + 7, refl)), tt)) (omega arith) (refl, (refl, tt))
