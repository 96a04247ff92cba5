-- ===== src/Typeorm/Append.antt =====
-- What an append to the TypeORM store does, also where the table or the publisher refuses.
use mathlib.Core.List.{map-append}
use mathlib.Core.Path.{sym}
use moirae.Base.{
  String, Bool, true, false, List, [], ◌∷◌, ◌++◌, map, select, select-append, ◌≡◌, ◌∙◌, ap, arith,
}
use moirae.Failure.{Error, Result, ok, err}
use moirae.Message.{Message}
use moirae.Typeorm.Store.{
  stored, is_of, EventTable, EventTableLaws, TypeormStore, publish_all, append_to_stream,
  read_from_stream,
}

module _ {D P : Type 0} (publish : Message D → P → Result (Unit {0}) × P) where
  -- The publications of some events, none of which throws.
  abbrev pub Publishes : List (Message D) → P → P → Type 0
  Publishes [] p q = p ≡ q
  Publishes (e ∷ es) p q = ((publish e p).0 ≡ ok tt) × Publishes es (publish e p).1 q

  publish_all-fails :
      (before after : List (Message D)) (e : Message D) (p q : P) (x : Error)
      → Publishes before p q
      → (publish e q).0 ≡ err x
      → publish_all publish (before ++ e ∷ after) p ≡ (err x, (publish e q).1)
  unfolding publish_all
  publish_all-fails [] after e p q x same threw = rw same (ground (arith, threw))
  publish_all-fails (b ∷ before) after e p q x (ran, rest) threw =
      ground (arith, ran, publish_all-fails before after e (publish b p).1 q x rest threw)

module _ {St D P : Type 0} (t : EventTable St D) (publish : Message D → P → Result (Unit {0}) × P)
    (to_instance : Message D → Message D) (accepts : List (Message D) → St → Bool)
    (held : St → List (Message D)) (laws : EventTableLaws t accepts held) where
  -- Whether the publisher throws or not: a stream reads as it did, with the stored form of those of the
  -- new events that are its own behind, in order.
  pub append-read :
      (es : List (Message D)) (id : String) (s : TypeormStore St P)
      → accepts es s.table ≡ true
      → read_from_stream t publish to_instance id (append_to_stream t publish to_instance es s).1
        ≡ read_from_stream t publish to_instance id s
          ++ map to_instance (select (is_of id) (map stored es))
  unfolding append_to_stream read_from_stream
  append-read es id s fits =
      let (saved, table) = laws.save-accepted es s.table fits in
      let s' = (t.save es s.table).1 in
      let found : t.find id s' ≡ t.find id s.table ++ select (is_of id) (map stored es) =
        laws.find-held id s'
        ∙ ap (select (is_of id)) table
        ∙ select-append (is_of id) (held s.table) (map stored es)
        ∙ ap (λ l. l ++ select (is_of id) (map stored es)) (sym (laws.find-held id s.table)) in
      ground (arith, saved)
      ∙ ap (map to_instance) found
      ∙ map-append to_instance (t.find id s.table) (select (is_of id) (map stored es))

  -- Rows that the table refuses: the append throws, and neither the table nor the publisher changes.
  pub append-refused :
      (es : List (Message D)) (s : TypeormStore St P)
      → accepts es s.table ≡ false
      → (x : Error) × (append_to_stream t publish to_instance es s ≡ (err x, s))
  unfolding append_to_stream
  append-refused es s unfit =
      let (x, refused) = laws.save-refused es s.table unfit in (x, ground (arith, refused))

  -- The rows fit, the publisher takes some of the events and throws at the next: the append throws, and
  -- yet every event is in the table, also those that were never published.
  pub append-unpublished :
      (before after : List (Message D)) (e : Message D) (s : TypeormStore St P) (q : P) (x : Error)
      → accepts (before ++ e ∷ after) s.table ≡ true
      → Publishes publish before s.publisher q
      → (publish e q).0 ≡ err x
      → let (r, s') = append_to_stream t publish to_instance (before ++ e ∷ after) s in
        (r ≡ err x)
        × (held s'.table ≡ held s.table ++ map stored (before ++ e ∷ after))
        × (s'.publisher ≡ (publish e q).1)
  unfolding append_to_stream
  append-unpublished before after e s q x fits sent threw =
      let es = before ++ e ∷ after in
      let (saved, table) = laws.save-accepted es s.table fits in
      let fails = publish_all-fails publish before after e s.publisher q x sent threw in
      (ground (arith, saved, fails), ground (arith, saved, table), ground (arith, saved, fails))
