-- ===== src/Observable/Emitter.antt =====
-- `EventEmitter` of Node: registrations of listeners under event names, oldest first. A listener is a
-- reference to a function, a number here; what it does when called is up to the part that owns it.
use moirae.Base.{
  ℕ, suc, ◌-◌, ◌≤◌, String, ◌===◌, ◌==◌, if◌then◌else◌, Bool, true, false, List, [], ◌∷◌, ◌++◌, ◌≡◌,
  refl, ◌∙◌, ◌&&◌, arith, eq_iff,
}

abbrev pub Emitter : Type 0
Emitter = List (String × ℕ)

abbrev pub add_listener : String → ℕ → Emitter → Emitter
add_listener key handler ee = ee ++ (key, handler) ∷ []

-- Whether a registration is that of a listener under a name.
is_of : String × ℕ → String × ℕ → Bool
is_of (k, h) (key, handler) = k === key && h == handler

is_of_eq : (a b : String × ℕ) → is_of a b ≡ true → a ≡ b
unfolding is_of
is_of_eq (k, h) (j, g) p = ground (arith, eq_iff k j)

-- Whether a listener is registered.
is_on : String → ℕ → Emitter → Bool
is_on key handler [] = false
is_on key handler (e ∷ ee) = if is_of e (key, handler) then true else is_on key handler ee

-- Takes away the registration of the listener that was added last.
unfoldable pub remove_listener : String → ℕ → Emitter → Emitter
unfolding is_on is_of
remove_listener key handler [] = []
remove_listener key handler (e ∷ ee) =
    let rest = remove_listener key handler ee in
    if is_of e (key, handler) then (if is_on key handler ee then e ∷ rest else ee) else e ∷ rest

-- The listeners that `emit` calls, in the order of its calls.
unfoldable pub listeners : String → Emitter → List ℕ
listeners key [] = []
listeners key ((k, h) ∷ ee) = if k === key then h ∷ listeners key ee else listeners key ee

abbrev pub member : ℕ → List ℕ → Bool
member h [] = false
member h (g ∷ gs) = if g == h then true else member h gs

-- How often a listener is registered.
unfoldable pub times : String → ℕ → Emitter → ℕ
unfolding is_of
times key handler [] = 0
times key handler (e ∷ ee) =
    if is_of e (key, handler) then suc (times key handler ee) else times key handler ee

pub listeners-add :
    (key k : String) (h : ℕ) (ee : Emitter)
    → listeners key (add_listener k h ee)
      ≡ (if k === key then listeners key ee ++ h ∷ [] else listeners key ee)
unfolding listeners
listeners-add key k h [] = refl
listeners-add key k h (e ∷ ee) = ground (arith, listeners-add key k h ee)

-- The laws below see registrations only through `is_of`, which is shut in them.
count : String × ℕ → Emitter → ℕ
count r [] = 0
count r (e ∷ ee) = if is_of e r then suc (count r ee) else count r ee

times-count : (key : String) (h : ℕ) (ee : Emitter) → times key h ee ≡ count (key, h) ee
unfolding times count is_of
times-count key h [] = refl
times-count key h ((k, g) ∷ ee) = ground (arith, times-count key h ee)

count-add :
    (r e : String × ℕ) (ee : Emitter)
    → count r (ee ++ e ∷ []) ≡ (if is_of e r then suc (count r ee) else count r ee)
unfolding count
count-add r e [] = refl
count-add r e (x ∷ ee) = ground (arith, count-add r e ee)

drop_last : String × ℕ → Emitter → Emitter
drop_last r [] = []
drop_last r (e ∷ ee) =
    let rest = drop_last r ee in
    if is_of e r then (if count r ee == 0 then ee else e ∷ rest) else e ∷ rest

is_on-count :
    (key : String) (h : ℕ) (ee : Emitter)
    → is_on key h ee ≡ (if count (key, h) ee == 0 then false else true)
unfolding count is_on
is_on-count key h [] = refl
is_on-count key h (e ∷ ee) = ground (arith, is_on-count key h ee)

remove-drop_last :
    (key : String) (h : ℕ) (ee : Emitter) → remove_listener key h ee ≡ drop_last (key, h) ee
unfolding remove_listener drop_last is_on is_of
remove-drop_last key h [] = refl
remove-drop_last key h ((k, g) ∷ ee) =
    ground (arith, remove-drop_last key h ee, is_on-count key h ee)

count-drop_last :
    (r a : String × ℕ) (ee : Emitter)
    → count r (drop_last a ee) ≡ (if is_of a r then count r ee - 1 else count r ee)
unfolding count drop_last
count-drop_last r a [] = ground arith
count-drop_last r a (e ∷ ee) =
    ground (arith, count-drop_last r a ee, is_of_eq a r, is_of_eq e a, is_of_eq e r)

drop_last-add : (r : String × ℕ) (ee : Emitter) → drop_last r (ee ++ r ∷ []) ≡ ee
unfolding drop_last count is_of
drop_last-add (k, h) [] = ground (arith, eq_iff k k)
drop_last-add (k, h) ((j, g) ∷ ee) =
    ground (arith, eq_iff k k, drop_last-add (k, h) ee, count-add (k, h) (k, h) ee)

-- Taking away the listener that was just added leaves the emitter as it was.
pub remove-add :
    (key : String) (h : ℕ) (ee : Emitter) → remove_listener key h (add_listener key h ee) ≡ ee
remove-add key h ee = remove-drop_last key h (add_listener key h ee) ∙ drop_last-add (key, h) ee

pub times-add :
    (key k : String) (g h : ℕ) (ee : Emitter)
    → times key g (add_listener k h ee)
      ≡ (if k === key && h == g then suc (times key g ee) else times key g ee)
unfolding is_of
times-add key k g h ee = ground (
  arith,
  times-count key g (add_listener k h ee),
  times-count key g ee,
  count-add (key, g) (k, h) ee,
)

-- A removal takes one registration of that listener, if there is one, and none of any other.
pub times-remove :
    (key k : String) (g h : ℕ) (ee : Emitter)
    → times key g (remove_listener k h ee)
      ≡ (if k === key && h == g then times key g ee - 1 else times key g ee)
unfolding is_of
times-remove key k g h ee = ground (
  arith,
  remove-drop_last k h ee,
  times-count key g (drop_last (k, h) ee),
  times-count key g ee,
  count-drop_last (key, g) (k, h) ee,
)

pub listeners-remove_ne :
    (key k : String) (h : ℕ) (ee : Emitter)
    → (k === key) ≡ false
    → listeners key (remove_listener k h ee) ≡ listeners key ee
unfolding listeners remove_listener
listeners-remove_ne key k h [] ne = refl
listeners-remove_ne key k h ((j, f) ∷ ee) ne =
    ground (arith, listeners-remove_ne key k h ee ne, eq_iff j k, eq_iff j key, eq_iff k key)

-- A listener that is registered is called.
pub member-listeners :
    (key : String) (h : ℕ) (ee : Emitter) → 1 ≤ times key h ee → member h (listeners key ee) ≡ true
unfolding times listeners is_of
member-listeners key h [] pos = absurd (omega arith)
member-listeners key h ((k, g) ∷ ee) pos = ground (arith, member-listeners key h ee)
