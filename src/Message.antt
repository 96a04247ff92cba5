-- ===== src/Message.antt =====
-- moirae/core/lib/interfaces: what events, commands and queries carry (`IEventLike`, `Respondable`,
-- `IEvent`, `ICommand`, `IQuery`), in one record, as the program passes them through the same code.
-- A field that an object may lack is an `Option`. `STREAM_ID` and `$streamId` are `stream_id`.
use moirae.Base.Dict.{Dict, set}
use moirae.Base.{ℕ, String, Bool, Option, none, some, [], ◌∷◌, truthy, if◌then◌else◌}

pub record Message (D : Type 0) : Type 0 where
  pub name : String
  pub uuid : String
  pub stream_id : Option String
  pub correlation_id : Option String
  pub metadata : Option (Dict String)
  pub execution_domain : Option String
  pub response_key : Option String
  pub routing_key : Option String
  pub disable_response : Bool
  pub timestamp : ℕ
  pub payload : D

-- `{ ...a, ...b }` on objects of texts.
abbrev pub spread : Dict String → Dict String → Dict String
spread a [] = a
spread a ((k, v) ∷ b) = spread (set k v a) b

abbrev pub or_empty : Option (Dict String) → Dict String
or_empty none = []
or_empty (some m) = m

-- `if (!x.f) x.f = y`
abbrev pub or_else : Option String → Option String → Option String
or_else x y = if truthy x then x else y
