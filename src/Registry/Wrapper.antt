-- ===== src/Registry/Wrapper.antt =====
-- moirae/core/lib/classes/response.class.ts. The payload of a response is an instance of a class, an array
-- of instances, or a value that class-transformer leaves alone.
use moirae.Base.{String, Option, none, some, List, [], ◌∷◌, map, ◌≡◌, refl, arith, All}
use moirae.Registry.Storage.{Constructor, ConstructorStorage, get}
use moirae.Registry.Processor.{Transformer, TransformerLaws}

pub data Payload (Plain Instance : Type 0) : Type 0 where
  value : Plain → Payload Plain Instance
  values : List Plain → Payload Plain Instance
  one : Instance → Payload Plain Instance
  -- the first and the others
  many : Instance → List Instance → Payload Plain Instance

pub record ResponseWrapper (A : Type 0) : Type 0 where
  pub payload : A
  pub payload_type : Option String
  pub response_key : String
  pub routing_key : String

-- A payload as a plain object.
pub data PlainPayload (Plain : Type 0) : Type 0 where
  plain : Plain → PlainPayload Plain
  plains : List Plain → PlainPayload Plain

module _ {Plain Instance C : Type 0} (t : Transformer Plain Instance C)
    (type_of : Plain → Option String) where
  -- The name of the constructor of the payload, or of its first element; `type_of` gives it for a value.
  abbrev pub sampled : Payload Plain Instance → Option String
  sampled (value p) = type_of p
  sampled (values []) = some "Array"
  sampled (values (p ∷ ps)) = type_of p
  sampled (one x) = some (t.class_of x).name
  sampled (many x xs) = some (t.class_of x).name

  abbrev pub payload_to_plain : Payload Plain Instance → PlainPayload Plain
  payload_to_plain (value p) = plain p
  payload_to_plain (values ps) = plains ps
  payload_to_plain (one x) = plain (t.instance_to_plain x)
  payload_to_plain (many x xs) = plains (t.instance_to_plain x ∷ map t.instance_to_plain xs)

  unfoldable pub to_plain :
      ResponseWrapper (Payload Plain Instance) → ResponseWrapper (PlainPayload Plain)
  to_plain r = record {
    payload = payload_to_plain r.payload;
    payload_type = sampled r.payload;
    response_key = r.response_key;
    routing_key = r.routing_key;
  }

  abbrev pub raw : PlainPayload Plain → Payload Plain Instance
  raw (plain p) = value p
  raw (plains ps) = values ps

  -- `plainToInstance(constructor, payload)`, on arrays element by element
  abbrev pub revived : Constructor C → PlainPayload Plain → Payload Plain Instance
  revived c (plain p) = one (t.plain_to_instance (some c) p)
  revived c (plains []) = values []
  revived c (plains (p ∷ ps)) =
      many (t.plain_to_instance (some c) p) (map (t.plain_to_instance (some c)) ps)

  abbrev pub registered : ConstructorStorage C → Option String → Option (Constructor C)
  registered storage none = none
  registered storage (some name) = get name storage

  unfoldable pub from_plain :
      ConstructorStorage C
      → ResponseWrapper (PlainPayload Plain)
      → ResponseWrapper (Payload Plain Instance)
  from_plain storage r = record {
    payload = elim (registered storage r.payload_type) [
      | none ↦ raw r.payload
      | some c ↦ revived c r.payload
    ];
    payload_type = r.payload_type;
    response_key = r.response_key;
    routing_key = r.routing_key;
  }

  -- The class of an instance is registered, and that of the first element is the class of all; the
  -- constructor of a value is not registered.
  abbrev pub IsKnown : ConstructorStorage C → Payload Plain Instance → Type 0
  IsKnown storage (value p) = registered storage (type_of p) ≡ none
  IsKnown storage (values []) = get "Array" storage ≡ none
  IsKnown storage (values (p ∷ ps)) = registered storage (type_of p) ≡ none
  IsKnown storage (one x) = get (t.class_of x).name storage ≡ some (t.class_of x)
  IsKnown storage (many x xs) =
      (get (t.class_of x).name storage ≡ some (t.class_of x))
      × All (λ y. t.class_of y ≡ t.class_of x) xs

  module _ (laws : TransformerLaws t) where
    map-read_as :
        (x : Instance) (xs : List Instance)
        → All (λ y. t.class_of y ≡ t.class_of x) xs
        → map (t.plain_to_instance (some (t.class_of x))) (map t.instance_to_plain xs) ≡ xs
    map-read_as x [] same = refl
    map-read_as x (y ∷ ys) (same, rest) =
        ground (arith, same, map-read_as x ys rest, laws.plain_to_instance-instance_to_plain y)

    revived-to_plain :
        (storage : ConstructorStorage C) (v : Payload Plain Instance)
        → IsKnown storage v
        → (elim (registered storage (sampled v)) [
          | none ↦ raw (payload_to_plain v)
          | some c ↦ revived c (payload_to_plain v)
        ])
          ≡ v
    revived-to_plain storage (value p) known = ground (arith, known)
    revived-to_plain storage (values []) known = ground (arith, known)
    revived-to_plain storage (values (p ∷ ps)) known = ground (arith, known)
    revived-to_plain storage (one x) known =
        ground (arith, known, laws.plain_to_instance-instance_to_plain x)
    revived-to_plain storage (many x xs) (known, same) =
        ground (arith, known, map-read_as x xs same, laws.plain_to_instance-instance_to_plain x)

    -- A response comes back from its plain object with the same payload and the same keys, if the classes
    -- of its payload are registered, the elements of an array have one class, and the constructor of a
    -- value that is no instance is not registered.
    pub from_plain-to_plain :
        (storage : ConstructorStorage C) (r : ResponseWrapper (Payload Plain Instance))
        → IsKnown storage r.payload
        → let r' = from_plain storage (to_plain r) in
          (r'.payload ≡ r.payload)
          × (r'.response_key ≡ r.response_key)
          × (r'.routing_key ≡ r.routing_key)
    unfolding from_plain to_plain
    from_plain-to_plain storage r known = (revived-to_plain storage r.payload known, refl, refl)
