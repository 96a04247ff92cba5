-- ===== src/Tests/Registry.antt =====
-- A transformer of pairs of a class name and a number, and a response over it.
use moirae.Base.{ℕ, String, false, ◌===◌, if◌then◌else◌, none, some, [], ◌∷◌, ◌≡◌, refl, ap, Option}
use moirae.Registry.Storage.{Constructor, set}
use moirae.Registry.Processor.{
  Transformer, TransformerLaws, parse_event, serialize_event, plain_to_instance,
  parse_event-serialize_event,
}
use moirae.Registry.Wrapper.{Payload, many, ResponseWrapper}
use moirae.Tests.Codec.{Codec, nat_codec, text_codec, pair_codec}

abbrev Item : Type 0
Item = String × ℕ

abbrev codec : Codec Item
codec = pair_codec text_codec nat_codec

abbrev class : String → Constructor ℕ
class name = record { name = name; class = 0 }

abbrev transformer : Transformer Item Item ℕ
transformer = record {
  instance_to_plain = λ e. e;
  plain_to_instance = λ c p. elim c [ none ↦ p | some k ↦ (k.name, p.1) ];
  stringify = λ p. codec.put p "";
  parse = λ s. (codec.pick s).0;
  name_of = λ p. p.0;
  class_of = λ e. class e.0;
}

transformer-TransformerLaws : TransformerLaws transformer
transformer-TransformerLaws = record {
  parse-stringify = λ p. ap (λ x. x.0) (codec.pick-put p "");
  plain_to_instance-instance_to_plain = λ e. refl;
  name_of-instance_to_plain = λ e. refl;
}

abbrev deposited : Item
deposited = ("Deposited", 3)

parse_event-serialize_event_example :
    let storage = set (class "Withdrawn") (set (class "Deposited") []) in
    (parse_event transformer storage (serialize_event transformer deposited)
      ≡ transformer.plain_to_instance
          (some (if "Withdrawn" === "Deposited" then class "Withdrawn" else class "Deposited"))
          deposited)
    × (("Withdrawn" === "Deposited") ≡ false
        → (parse_event transformer storage (serialize_event transformer deposited) ≡ deposited)
          × (plain_to_instance transformer storage deposited ≡ deposited))
parse_event-serialize_event_example =
    parse_event-serialize_event transformer transformer-TransformerLaws deposited
      (class "Withdrawn") []

abbrev type_of : Item → Option String
type_of p = some "Object"

abbrev response : ResponseWrapper (Payload Item Item)
response = record {
  payload = many deposited (("Deposited", 4) ∷ []);
  payload_type = none;
  response_key = "r";
  routing_key = "n";
}
