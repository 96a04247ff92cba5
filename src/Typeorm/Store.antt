-- ===== src/Typeorm/Store.antt =====
-- moirae/typeorm/lib/stores/typeorm.store.ts over the entity of
-- moirae/typeorm/lib/entities/event-store.entity.ts. The repository, the publisher behind `IPublisher`
-- and `plainToInstance` of class-transformer are parameters.
use moirae.Base.{
  String, ◌===◌, Bool, true, false, none, some, List, [], ◌∷◌, ◌++◌, map, select, ◌≡◌,
}
use moirae.Failure.{Error, Result, ok, err}
use moirae.Message.{Message}

-- What a row of the table holds of an event: the columns of the entity.
abbrev pub stored : {D : Type 0} → Message D → Message D
stored event = record event {
  execution_domain = none;
  response_key = none;
  routing_key = none;
  disable_response = false;
}

abbrev pub is_of : {D : Type 0} → String → Message D → Bool
is_of id event = elim event.stream_id [ none ↦ false | some s ↦ s === id ]

-- `save` and `find` with its order by `$order`; `accepts` says that the unique index on `$uuid` lets
-- the rows in, and `held` is the table in the order of insertion.
pub record EventTable (St D : Type 0) : Type 0 where
  pub save : List (Message D) → St → Result (List (Message D)) × St
  pub find : String → St → List (Message D)

pub record EventTableLaws {St D : Type 0} (t : EventTable St D)
    (accepts : List (Message D) → St → Bool) (held : St → List (Message D)) : Type 0 where
  pub save-accepted :
      (es : List (Message D)) (s : St)
      → accepts es s ≡ true
      → ((t.save es s).0 ≡ ok (map stored es)) × (held (t.save es s).1 ≡ held s ++ map stored es)
  pub save-refused :
      (es : List (Message D)) (s : St)
      → accepts es s ≡ false
      → (e : Error) × (t.save es s ≡ (err e, s))
  pub find-held : (id : String) (s : St) → t.find id s ≡ select (is_of id) (held s)

module _ {D P : Type 0} (publish : Message D → P → Result (Unit {0}) × P) where
  -- `for await (const event of eventList) await this.publisher.publish(event)`
  unfoldable pub publish_all : List (Message D) → P → Result (Unit {0}) × P
  publish_all [] p = (ok tt, p)
  publish_all (e ∷ es) p = elim (publish e p).0 [
    | ok _ ↦ publish_all es (publish e p).1
    | err x ↦ (err x, (publish e p).1)
  ]

pub record TypeormStore (St P : Type 0) : Type 0 where
  pub table : St
  pub publisher : P

module _ {St D P : Type 0} (t : EventTable St D) (publish : Message D → P → Result (Unit {0}) × P)
    (to_instance : Message D → Message D) where
  unfoldable pub append_to_stream :
      List (Message D) → TypeormStore St P → Result (List (Message D)) × TypeormStore St P
  append_to_stream event_list s = elim (t.save event_list s.table).0 [
    | err x ↦ (err x, record s { table = (t.save event_list s.table).1 })
    | ok events ↦ (
      elim (publish_all publish event_list s.publisher).0 [
        | ok _ ↦ ok (map to_instance events)
        | err x ↦ err x
      ],
      record {
        table = (t.save event_list s.table).1;
        publisher = (publish_all publish event_list s.publisher).1;
      },
    )
  ]

  unfoldable pub read_from_stream : String → TypeormStore St P → List (Message D)
  read_from_stream id s = map to_instance (t.find id s.table)
