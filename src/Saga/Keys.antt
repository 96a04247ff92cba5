-- ===== src/Saga/Keys.antt =====
-- The texts that name a rollback command in the cache: written by saga.class.ts, split at the colon by
-- saga-manager.class.ts.
use Prim.Native.Char.{code}
use Prim.Native.String.{◌++◌}
use Prim.Native.String.append.{cons, nil}
use moirae.Base.{String, ◌==◌, none, some, ◌≡◌, refl, arith, ap, ◌∙◌, inl, inr, Bool-cases}
use moirae.Message.{Message}
use moirae.Saga.Defs.{SagaStep, before_colon, after_colon, split_key, rollback_key, printed}

-- The text has no colon.
abbrev pub IsPlain : String → Type 0
IsPlain t = after_colon t ≡ none

append-colon : (t : String) → ":" ++ t ≡ String.◌∷◌ ":" t
append-colon t = cons ":" "" t ∙ ap (String.◌∷◌ ":") (nil t)

pub before_colon-plain : (t : String) → IsPlain t → before_colon t ≡ t
unfolding before_colon after_colon
before_colon-plain String.[] h = refl
before_colon-plain (String.◌∷◌ c t) h = elim (Bool-cases (code c == 58)) [
  | inl q ↦ absurd (ground (arith, q, h))
  | inr q ↦ ground (arith, q, h, before_colon-plain t)
]

split-append :
    (name t : String)
    → IsPlain name
    → (before_colon (name ++ String.◌∷◌ ":" t) ≡ name)
      × (after_colon (name ++ String.◌∷◌ ":" t) ≡ some t)
unfolding before_colon after_colon
split-append String.[] t h = rw (nil (String.◌∷◌ ":" t)) (refl, refl)
split-append (String.◌∷◌ c name) t h = elim (Bool-cases (code c == 58)) [
  | inl q ↦ absurd (ground (arith, q, h))
  | inr q ↦
      let plain : IsPlain name = ground (arith, q, h) in
      let (b, a) = split-append name t plain in
      rw (cons c name (String.◌∷◌ ":" t)) (ground (arith, q, b), ground (arith, q, a))
]

-- The key of a rollback command whose name has no colon splits into the name and the stream, but of the
-- stream only what stands before its first colon.
pub split_key-rollback_key :
    {D : Type 0} (step : SagaStep D) (event : Message D)
    → IsPlain step.rollback_command
    → split_key (rollback_key step event)
      ≡ (step.rollback_command, some (before_colon (printed event.stream_id)))
unfolding split_key
split_key-rollback_key step event plain =
    let (b, a) = split-append step.rollback_command (printed event.stream_id) plain in
    rw (append-colon (printed event.stream_id), b, a) refl
