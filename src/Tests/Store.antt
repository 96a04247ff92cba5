-- ===== src/Tests/Store.antt =====
-- The in-memory store and the factory on a sample aggregate.
use moirae.Base.{ℕ, String, ◌≡◌, refl, List, [], ◌∷◌, ap, some, none, true, false, length, inl, ◌+◌}
use moirae.Failure.{ok}
use moirae.Message.{Message}
use moirae.Aggregate.{
  Class, Aggregate, apply_all, apply, construct, uncommitted_event_history, set_commit_function,
}
use moirae.Aggregate.History.{handle}
use moirae.Publisher.{not_ready}
use moirae.Store.{MemoryStore, loaded, merge_context, save, read_from_stream, bootstrap}
use moirae.Store.Loading.{IsPayloadOnly}
use moirae.Store.RoundTrip.{save-merge_context}
use moirae.Tests.Sample.{wire, no_responses}

abbrev event : String → ℕ → Message ℕ
event uuid amount = record {
  name = "deposited";
  uuid = uuid;
  stream_id = none;
  correlation_id = none;
  metadata = none;
  execution_domain = none;
  response_key = none;
  routing_key = none;
  disable_response = false;
  timestamp = 5;
  payload = amount;
}

-- The sum of the payloads.
abbrev counter : Class ℕ ℕ
counter = record {
  initial = 0;
  deleted = λ s. false;
  on_apply = λ n. some (λ e s. (ok tt, s + e.payload));
  on_rollback = λ n. none;
}

counter-IsPayloadOnly : IsPayloadOnly counter
unfolding handle
counter-IsPayloadOnly e d s (n, u, t, p) = ap (λ x. ok (s + x)) p

abbrev store : MemoryStore ℕ ℕ
store = bootstrap (record {
  streams = none;
  publisher = record {
    node_id = "n";
    queue = none;
    status = not_ready;
    distributor = record { uuid = "d"; subscriptions = [] };
    ee = [];
    workers = [];
    running = [];
    delivered = [];
    response_map = no_responses;
  };
})

abbrev loaded_new : Aggregate ℕ ℕ
loaded_new = record (construct counter "s") { commit_set = true }

abbrev changed : Aggregate ℕ ℕ
changed = (apply_all counter false (event "u1" 5 ∷ event "u2" 7 ∷ []) loaded_new).1

save-merge_context_example :
    let (r, s') = save wire (λ n. "q") none changed store in
    (sent : List (Message ℕ)) × (r ≡ ok sent)
    × (length sent ≡ 2)
    × (c : Aggregate ℕ ℕ) × (merge_context counter "s" s' ≡ ok c)
    × (c.state ≡ changed.state)
    × (uncommitted_event_history c ≡ [])
unfolding bootstrap merge_context apply_all apply construct read_from_stream loaded
    set_commit_function
save-merge_context_example =
    save-merge_context counter wire "s" (λ n. "q") none (event "u1" 5 ∷ event "u2" 7 ∷ [])
      loaded_new changed store counter-IsPayloadOnly refl (inl refl, (inl refl, tt)) refl refl
