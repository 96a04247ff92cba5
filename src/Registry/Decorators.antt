-- ===== src/Registry/Decorators.antt =====
-- moirae/core/lib/decorators: apply.decorator.ts, rollback.decorator.ts and saga-step.decorator.ts, which
-- keep metadata on the prototype of a class, under the keys of moirae.constants.ts. reflect-metadata
-- keeps a value for each key.
use Prim.Native.Char.{code}
use Prim.Native.String.{◌++◌}
use Prim.Native.String.append.{cons}
use text.Mathlib.TextLemmas.{append_cancel_left, head-eq_of_cons-eq, tail-eq_of_cons-eq}
use mathlib.Core.List.{◌++◌ as append}
use moirae.Base.{
  String, ◌===◌, if◌then◌else◌, Bool-cases, false, inl, inr, Option, none, some, List, [], ◌∷◌, ◌≡◌,
  refl, sym, ap, ◌∙◌, arith, eq_iff,
}
use moirae.Base.Dict.{Dict, get, set, get-set}

abbrev pub apply_key : String → String
apply_key event = "__apply_event_metadata__:" ++ event

abbrev pub rollback_key : String → String
rollback_key event = "__rollback-event-metadata__:" ++ event

-- A decorated method: the name of the event, and the name of the method.
pub data Decoration : Type 0 where
  on_apply : String → String → Decoration
  on_rollback : String → String → Decoration

-- `Apply` and `Rollback`
unfoldable pub define_metadata : Decoration → Dict String → Dict String
define_metadata (on_apply event method) target = set (apply_key event) method target
define_metadata (on_rollback event method) target = set (rollback_key event) method target

-- The decorators of a class, in the order of its methods.
unfoldable pub decorate : List Decoration → Dict String → Dict String
unfolding define_metadata
decorate [] target = target
decorate (d ∷ ds) target = decorate ds (define_metadata d target)

-- `Reflect.getMetadata` in `apply` and in `rollback` of an aggregate
unfoldable pub apply_handler : String → Dict String → Option String
apply_handler event target = get (apply_key event) target

unfoldable pub rollback_handler : String → Dict String → Option String
rollback_handler event target = get (rollback_key event) target

-- `[...sagas, { event, propertyKey, rollbackCommand }]`
pub record StepMetadata : Type 0 where
  pub event : String
  pub property_key : String
  pub rollback_command : String

unfoldable pub saga_step : String → String → String → Option (List StepMetadata) → List StepMetadata
saga_step event rollback_command property_key sagas =
    let step : StepMetadata = record {
      event = event;
      property_key = property_key;
      rollback_command = rollback_command;
    } in
    elim sagas [ none ↦ step ∷ [] | some steps ↦ append steps (step ∷ []) ]

apply_ne_rollback : (x y : String) → apply_key x ≡ rollback_key y → ⊥
apply_ne_rollback x y h =
    let left =
      cons "_" "_apply_event_metadata__:" x
      ∙ ap (String.◌∷◌ "_") (cons "_" "apply_event_metadata__:" x)
      ∙ ap (λ t. String.◌∷◌ "_" (String.◌∷◌ "_" t)) (cons "a" "pply_event_metadata__:" x) in
    let right =
      cons "_" "_rollback-event-metadata__:" y
      ∙ ap (String.◌∷◌ "_") (cons "_" "rollback-event-metadata__:" y)
      ∙ ap (λ t. String.◌∷◌ "_" (String.◌∷◌ "_" t)) (cons "r" "ollback-event-metadata__:" y) in
    let both = sym left ∙ (h ∙ right) in
    let heads = head-eq_of_cons-eq (tail-eq_of_cons-eq (tail-eq_of_cons-eq both)) in
    absurd (omega (arith, ap code heads))

same_behind : (before x y : String) → (before ++ x) === (before ++ y) ≡ x === y
same_behind before x y = elim (Bool-cases (x === y)) [
  | inl same ↦
      (eq_iff (before ++ x) (before ++ y)).1 (ap (λ t. before ++ t) ((eq_iff x y).0 same))
      ∙ sym same
  | inr other ↦ elim (Bool-cases ((before ++ x) === (before ++ y))) [
    | inl both ↦
        both
        ∙ sym (
            (eq_iff x y).1
              (append_cancel_left before x y ((eq_iff (before ++ x) (before ++ y)).0 both)))
    | inr neither ↦ neither ∙ sym other
  ]
]

other_key : (x y : String) → apply_key x === rollback_key y ≡ false
other_key x y = elim (Bool-cases (apply_key x === rollback_key y)) [
  | inl same ↦ absurd (apply_ne_rollback x y ((eq_iff (apply_key x) (rollback_key y)).0 same))
  | inr other ↦ other
]

other_key' : (x y : String) → rollback_key x === apply_key y ≡ false
other_key' x y = elim (Bool-cases (rollback_key x === apply_key y)) [
  | inl same ↦ absurd (apply_ne_rollback y x (sym ((eq_iff (rollback_key x) (apply_key y)).0 same)))
  | inr other ↦ other
]

abbrev pub or_earlier {ℓ} : {A : Type ℓ} → Option A → Option A → Option A
or_earlier none earlier = earlier
or_earlier (some a) earlier = some a

pub or_earlier-none {ℓ} : {A : Type ℓ} (a : Option A) → or_earlier a none ≡ a
or_earlier-none none = refl
or_earlier-none (some a) = refl

-- The last method of a kind that was decorated with the event.
abbrev pub last_apply : String → List Decoration → Option String
last_apply event [] = none
last_apply event (on_rollback e m ∷ ds) = last_apply event ds
last_apply event (on_apply e m ∷ ds) =
    or_earlier (last_apply event ds) (if e === event then some m else none)

abbrev pub last_rollback : String → List Decoration → Option String
last_rollback event [] = none
last_rollback event (on_apply e m ∷ ds) = last_rollback event ds
last_rollback event (on_rollback e m ∷ ds) =
    or_earlier (last_rollback event ds) (if e === event then some m else none)

get-apply_key :
    (event : String) (ds : List Decoration) (m : Dict String)
    → get (apply_key event) (decorate ds m)
      ≡ or_earlier (last_apply event ds) (get (apply_key event) m)
unfolding decorate
get-apply_key event [] m = refl
get-apply_key event (on_apply e h ∷ ds) m =
    get-apply_key event ds (set (apply_key e) h m)
    ∙ rw
        (
          get-set (apply_key e) (apply_key event) h m,
          same_behind "__apply_event_metadata__:" e event,
        )
        (ground arith)
get-apply_key event (on_rollback e h ∷ ds) m =
    get-apply_key event ds (set (rollback_key e) h m)
    ∙ rw (get-set (rollback_key e) (apply_key event) h m, other_key' e event) refl

get-rollback_key :
    (event : String) (ds : List Decoration) (m : Dict String)
    → get (rollback_key event) (decorate ds m)
      ≡ or_earlier (last_rollback event ds) (get (rollback_key event) m)
unfolding decorate
get-rollback_key event [] m = refl
get-rollback_key event (on_rollback e h ∷ ds) m =
    get-rollback_key event ds (set (rollback_key e) h m)
    ∙ rw
        (
          get-set (rollback_key e) (rollback_key event) h m,
          same_behind "__rollback-event-metadata__:" e event,
        )
        (ground arith)
get-rollback_key event (on_apply e h ∷ ds) m =
    get-rollback_key event ds (set (apply_key e) h m)
    ∙ rw (get-set (apply_key e) (rollback_key event) h m, other_key e event) refl

-- On a class whose methods are decorated one after the other, an event finds the last method that `Apply`
-- marked for it, and its rollback the last that `Rollback` did: the two tables do not meet.
pub decorate-handlers :
    (ds : List Decoration) (event : String)
    → (apply_handler event (decorate ds []) ≡ last_apply event ds)
      × (rollback_handler event (decorate ds []) ≡ last_rollback event ds)
unfolding apply_handler rollback_handler
decorate-handlers ds event = (
  get-apply_key event ds [] ∙ or_earlier-none (last_apply event ds),
  get-rollback_key event ds [] ∙ or_earlier-none (last_rollback event ds),
)
