-- ===== src/Registry/Processor.antt =====
-- moirae/core/lib/mixins/event-processor.mixin.ts. class-transformer and `JSON` are parameters: what an
-- instance is as a plain object, and as which instance of a class a plain object is read.
use moirae.Base.{false, String, Option, some, ◌≡◌, arith, eq_iff, ◌===◌, if◌then◌else◌}
use moirae.Base.Dict.{get-set}
use moirae.Registry.Storage.{Constructor, ConstructorStorage, get, set}

pub record Transformer (Plain Instance C : Type 0) : Type 0 where
  pub instance_to_plain : Instance → Plain
  -- without a class the plain object stays what it is
  pub plain_to_instance : Option (Constructor C) → Plain → Instance
  pub stringify : Plain → String
  pub parse : String → Plain
  -- `plain.$name`, and the class of an instance
  pub name_of : Plain → String
  pub class_of : Instance → Constructor C

pub record TransformerLaws {Plain Instance C : Type 0} (t : Transformer Plain Instance C)
    : Type 0 where
  pub parse-stringify : (p : Plain) → t.parse (t.stringify p) ≡ p
  pub plain_to_instance-instance_to_plain :
      (e : Instance) → t.plain_to_instance (some (t.class_of e)) (t.instance_to_plain e) ≡ e
  -- an event carries the name of its class
  pub name_of-instance_to_plain :
      (e : Instance) → t.name_of (t.instance_to_plain e) ≡ (t.class_of e).name

module _ {Plain Instance C : Type 0} (t : Transformer Plain Instance C) where
  unfoldable pub serialize_event : Instance → String
  serialize_event event = t.stringify (t.instance_to_plain event)

  unfoldable pub parse_event : ConstructorStorage C → String → Instance
  parse_event storage text =
      let plain = t.parse text in t.plain_to_instance (get (t.name_of plain) storage) plain

  -- `plainToInstance` of an event from a store
  unfoldable pub plain_to_instance : ConstructorStorage C → Plain → Instance
  plain_to_instance storage event = t.plain_to_instance (get (t.name_of event) storage) event

  -- An event of a class that was registered is read from its text, and from its plain object, as it was,
  -- where
  -- the class that was registered after it has another name. If it has the same name, the event is read as
  -- one of that class.
  pub parse_event-serialize_event :
      (laws : TransformerLaws t) (e : Instance) (other : Constructor C)
      (storage : ConstructorStorage C)
      → let storage' = set other (set (t.class_of e) storage) in
        let read_as = if other.name === (t.class_of e).name then other else t.class_of e in
        (parse_event storage' (serialize_event e)
          ≡ t.plain_to_instance (some read_as) (t.instance_to_plain e))
        × ((other.name === (t.class_of e).name) ≡ false
            → (parse_event storage' (serialize_event e) ≡ e)
              × (plain_to_instance storage' (t.instance_to_plain e) ≡ e))
  unfolding parse_event serialize_event plain_to_instance
  parse_event-serialize_event laws e other storage =
      let c = t.class_of e in
      let p = t.instance_to_plain e in
      let found = get-set other.name c.name other (set c storage) in
      let found' = get-set c.name c.name c storage in
      let name = laws.name_of-instance_to_plain e in
      let back = laws.parse-stringify p in
      let same = laws.plain_to_instance-instance_to_plain e in
      (
        ground (arith, found, found', name, back, eq_iff c.name c.name),
        λ differ. (
          ground (arith, found, found', name, back, same, differ, eq_iff c.name c.name),
          ground (arith, found, found', name, same, differ, eq_iff c.name c.name),
        ),
      )
