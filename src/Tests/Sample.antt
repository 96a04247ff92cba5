-- ===== src/Tests/Sample.antt =====
-- Texts for messages, responses and plain texts, which stand for those of class-transformer and `JSON`
-- in the examples, with what the model asks of them.
use Prim.Native.Char.{Char}
use Prim.Native.String.compare.{cons-nil}
use moirae.Base.{ℕ, String, Bool, true, false, Option, ◌===◌, if◌then◌else◌, ◌≡◌, refl, ap, []}
use moirae.Base.Dict.{Dict}
use moirae.Message.{Message}
use moirae.AsyncMap.{AsyncMap}
use moirae.Publisher.{Response, Wire}
use moirae.Publisher.Order.{WireLaws}
use moirae.Cache.{Json}
use moirae.Tests.Codec.{
  Codec, bool_codec, nat_codec, text_codec, option_codec, list_codec, pair_codec, view_codec,
}

abbrev maybe_text : Codec (Option String)
maybe_text = option_codec text_codec

module _ {D : Type 0} (body : Codec D) where
  abbrev Fields : Type 0
  Fields =
      String
      × (String
          × (Option String
              × (Option String
                  × (Option (Dict String)
                      × (Option String × (Option String × (Option String × (Bool × (ℕ × D)))))))))

  abbrev to_fields : Message D → Fields
  to_fields e = (
    e.name,
    (
      e.uuid,
      (
        e.stream_id,
        (
          e.correlation_id,
          (
            e.metadata,
            (
              e.execution_domain,
              (e.response_key, (e.routing_key, (e.disable_response, (e.timestamp, e.payload)))),
            ),
          ),
        ),
      ),
    ),
  )

  abbrev from_fields : Fields → Message D
  from_fields (n, (u, (s, (c, (m, (x, (k, (r, (d, (t, p)))))))))) = record {
    name = n;
    uuid = u;
    stream_id = s;
    correlation_id = c;
    metadata = m;
    execution_domain = x;
    response_key = k;
    routing_key = r;
    disable_response = d;
    timestamp = t;
    payload = p;
  }

  abbrev fields_codec : Codec Fields
  fields_codec = pair_codec text_codec (
      pair_codec text_codec (
        pair_codec maybe_text (
          pair_codec maybe_text (
            pair_codec (option_codec (list_codec (pair_codec text_codec text_codec))) (
              pair_codec maybe_text (
                pair_codec maybe_text
                  (pair_codec maybe_text (pair_codec bool_codec (pair_codec nat_codec body)))))))))

  abbrev pub body_codec : Codec (Message D)
  body_codec = view_codec fields_codec to_fields from_fields (λ b. refl)

unfoldable pub message_codec : Codec (Message ℕ)
message_codec = body_codec nat_codec

abbrev tail : String → String
tail String.[] = String.[]
tail (String.◌∷◌ c s) = s

unfoldable pub response_codec : Codec (Response ℕ)
response_codec =
    view_codec (pair_codec nat_codec (pair_codec text_codec text_codec))
      (λ r. (r.payload, (r.response_key, r.routing_key)))
      (λ f. record { payload = f.0; response_key = f.1.0; routing_key = f.1.1 }) (λ b. refl)

pub cons_ne_empty : (c : Char) (s : String) → (String.◌∷◌ c s === "") ≡ false
cons_ne_empty c s = rw (cons-nil c s) refl

-- A mark before each text keeps it from being empty.
module _ {D : Type 0} (event : Codec (Message D)) where
  abbrev pub wire_of : Wire D ℕ
  wire_of = record {
    serialize_event = λ e. String.◌∷◌ "m" (event.put e "");
    parse_event = λ s. (event.pick (tail s)).0;
    serialize_response = λ r. response_codec.put r "";
    parse_response = λ s. (response_codec.pick s).0;
  }

  pub wire_of-WireLaws : WireLaws wire_of
  wire_of-WireLaws = record {
    parse-serialize = λ e. ap (λ p. p.0) (event.pick-put e "");
    serialize_ne_empty = λ e. cons_ne_empty "m" (event.put e "");
  }

unfoldable pub wire : Wire ℕ ℕ
wire = wire_of message_codec

pub wire-WireLaws : WireLaws wire
unfolding wire
wire-WireLaws = wire_of-WireLaws message_codec

unfoldable pub json : Json String
json = record {
  stringify = λ v. String.◌∷◌ "q" v;
  parse = tail;
  is_truthy = λ v. if v === "" then false else true;
  parse-stringify = λ v. refl;
  stringify_ne_empty = λ v. cons_ne_empty "q" v;
}

abbrev pub no_responses : AsyncMap (Response ℕ)
no_responses = record {
  map = [];
  distributor = record { uuid = "r"; subscriptions = [] };
  ee = [];
  waiting = [];
  resolved = [];
}
