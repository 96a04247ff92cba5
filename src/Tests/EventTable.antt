-- ===== src/Tests/EventTable.antt =====
-- A table of events with unique uuids, a publisher that throws at one event, and the store over them.
use moirae.Base.{
  ℕ, String, ◌===◌, if◌then◌else◌, Bool, true, false, none, some, List, [], ◌∷◌, ◌++◌, map, select,
  ◌≡◌, refl, arith, not, ◌&&◌,
}
use moirae.Base.Sets.{contains}
use moirae.Failure.{Error, Result, ok, err, custom}
use moirae.Message.{Message}
use moirae.Typeorm.Store.{
  stored, is_of, EventTable, EventTableLaws, TypeormStore, append_to_stream, read_from_stream,
}
use moirae.Typeorm.Append.{append-read, append-refused, append-unpublished}

abbrev event : String → Message ℕ
event uuid = record {
  name = "deposited";
  uuid = uuid;
  stream_id = some "s";
  correlation_id = none;
  metadata = none;
  execution_domain = none;
  response_key = none;
  routing_key = some "n";
  disable_response = false;
  timestamp = 5;
  payload = 3;
}

abbrev unique : List String → List (Message ℕ) → Bool
unique used [] = true
unique used (e ∷ es) = not (contains e.uuid used) && unique (e.uuid ∷ used) es

abbrev accepts : List (Message ℕ) → List (Message ℕ) → Bool
accepts es rows = unique (map (λ e. e.uuid) rows) es

abbrev table : EventTable (List (Message ℕ)) ℕ
table = record {
  save = λ es rows.
      if accepts es rows
      then (ok (map stored es), rows ++ map stored es)
      else (err (custom "QueryFailedError"), rows);
  find = λ id rows. select (is_of id) rows;
}

table-EventTableLaws : EventTableLaws table accepts (λ rows. rows)
table-EventTableLaws = record {
  save-accepted = λ es rows fits. ground (arith, fits);
  save-refused = λ es rows unfit. (custom "QueryFailedError", ground (arith, unfit));
  find-held = λ id rows. refl;
}

abbrev publish : Message ℕ → List String → Result (Unit {0}) × List String
publish e sent =
    if e.uuid === "bad" then (err (custom "Closed"), sent) else (ok tt, sent ++ e.uuid ∷ [])

abbrev store : TypeormStore (List (Message ℕ)) (List String)
store = record { table = stored (event "u1") ∷ []; publisher = [] }

append-read_example :
    read_from_stream table publish
      (λ e. e)
      "s"
      (append_to_stream table publish (λ e. e) (event "u2" ∷ event "bad" ∷ []) store).1
    ≡ read_from_stream table publish (λ e. e) "s" store
      ++ map (λ e. e) (select (is_of "s") (map stored (event "u2" ∷ event "bad" ∷ [])))
append-read_example =
    append-read table publish (λ e. e) accepts (λ rows. rows) table-EventTableLaws
      (event "u2" ∷ event "bad" ∷ []) "s" store refl

append-refused_example :
    (x : Error) × (append_to_stream table publish (λ e. e) (event "u1" ∷ []) store ≡ (err x, store))
append-refused_example =
    append-refused table publish (λ e. e) accepts (λ rows. rows) table-EventTableLaws
      (event "u1" ∷ []) store refl

append-unpublished_example :
    let (r, s') =
      append_to_stream table publish (λ e. e) (event "u2" ∷ event "bad" ∷ event "u3" ∷ []) store in
    (r ≡ err (custom "Closed"))
    × (s'.table ≡ store.table ++ map stored (event "u2" ∷ event "bad" ∷ event "u3" ∷ []))
    × (s'.publisher ≡ "u2" ∷ [])
append-unpublished_example =
    append-unpublished table publish (λ e. e) accepts (λ rows. rows) table-EventTableLaws
      (event "u2" ∷ []) (event "u3" ∷ []) (event "bad") store ("u2" ∷ []) (custom "Closed") refl
      (refl, refl) refl
