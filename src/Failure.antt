-- ===== src/Failure.antt =====
-- The error classes of moirae/core/lib/exceptions, and what a method that may throw returns. A method
-- that changes an object is an `Action` over that object's state: what it wrote before a throw stays.
use moirae.Base.{String, Bool, if◌then◌else◌, ◌≡◌, refl, ◌⊎◌, inl, inr}

pub data Error : Type 0 where
  -- a property read of `undefined`
  type_error : Error
  aggregate_deleted : Error
  unhandled_event : String → Error
  unavailable_commit : Error
  invalid_multiple_set : Error
  handler_not_found : Error
  async_map_timeout : Error
  -- `new Error(…)` with no class of its own
  plain : Error
  -- a class that the application declares, by its name
  custom : String → Error

-- `error.name`, which every class below sets to the name of its constructor.
unfoldable pub name : Error → String
name type_error = "TypeError"
name aggregate_deleted = "AggregateDeletedError"
name (unhandled_event _) = "UnhandledEventError"
name unavailable_commit = "UnavailableCommitError"
name invalid_multiple_set = "InvalidMultipleSetError"
name handler_not_found = "HandlerNotFoundError"
name async_map_timeout = "AsyncMapTimeoutError"
name plain = "Error"
name (custom n) = n

pub data Result {ℓ} (A : Type ℓ) : Type ℓ where
  ok : A → Result A
  err : Error → Result A

pub Result-cases {ℓ} :
    {A : Type ℓ} (r : Result A) → ((a : A) × (r ≡ ok a)) ⊎ ((e : Error) × (r ≡ err e))
Result-cases (ok a) = inl (a, refl)
Result-cases (err e) = inr (e, refl)

abbrev pub Action : Type 0 → Type 0 → Type 0
Action S A = S → Result A × S

abbrev pub pure : {S A : Type 0} → A → Action S A
pure a s = (ok a, s)

abbrev pub throw : {S A : Type 0} → Error → Action S A
throw e s = (err e, s)

infixl 5 ◌>>=◌ ◌>>◌
abbrev pub ◌>>=◌ : {S A B : Type 0} → Action S A → (A → Action S B) → Action S B
◌>>=◌ m f s = let (r, s') = m s in elim r [ ok a ↦ f a s' | err e ↦ (err e, s') ]

abbrev pub ◌>>◌ : {S B : Type 0} → Action S (Unit {0}) → Action S B → Action S B
m >> k = m >>= λ _. k

abbrev pub throw_if : {S : Type 0} → Bool → Error → Action S (Unit {0})
throw_if c e s = (if c then err e else ok tt, s)

abbrev pub modify : {S : Type 0} → (S → S) → Action S (Unit {0})
modify f s = (ok tt, f s)

abbrev pub gets : {S A : Type 0} → (S → A) → Action S A
gets f s = (ok (f s), s)

abbrev pub lift : {S A : Type 0} → Result A → Action S A
lift r s = (r, s)
