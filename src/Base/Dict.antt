-- ===== src/Base/Dict.antt =====
-- A JavaScript `Map` with text keys: an association list in insertion order. `set` on a known key
-- keeps its place. A `Map` holds a key once, so `delete` may drop every entry with the key.
use Prim.Native.Nat.{ℕ, suc}
use Prim.Native.String.{String}
use mathlib.Core.Bool.{Bool, true, false}
use mathlib.Core.List.{List, [], ◌∷◌, ◌++◌}
use mathlib.Core.Option.{Option, none, some}
use mathlib.Core.Path.{◌≡◌, refl}
use native.Mathlib.Omega.{arith}
use text.Mathlib.TextEquality.{eq_iff}
use moirae.Base.Tests.{◌===◌, if◌then◌else◌, is_some}
use moirae.Base.Lists.{length}

abbrev pub Dict {ℓ} : Type ℓ → Type ℓ
Dict V = List (String × V)

module _ {ℓ} {V : Type ℓ} where
  abbrev pub get : String → Dict V → Option V
  get k [] = none
  get k ((j, v) ∷ m) = if j === k then some v else get k m

  abbrev pub has : String → Dict V → Bool
  has k m = is_some (get k m)

  abbrev pub set : String → V → Dict V → Dict V
  set k v [] = (k, v) ∷ []
  set k v ((j, w) ∷ m) = if j === k then (j, v) ∷ m else (j, w) ∷ set k v m

  abbrev pub delete : String → Dict V → Dict V
  delete k [] = []
  delete k ((j, v) ∷ m) = if j === k then delete k m else (j, v) ∷ delete k m

  abbrev pub size : Dict V → ℕ
  size m = length m

  pub get-set :
      (k j : String) (v : V) (m : Dict V)
      → get j (set k v m) ≡ (if k === j then some v else get j m)
  get-set k j v [] = refl
  get-set k j v ((i, w) ∷ m) = ground (arith, eq_iff k j, eq_iff i k, eq_iff i j, get-set k j v m)

  pub get-delete :
      (k j : String) (m : Dict V) → get j (delete k m) ≡ (if k === j then none else get j m)
  get-delete k j [] = ground arith
  get-delete k j ((i, w) ∷ m) = ground (arith, eq_iff k j, eq_iff i k, eq_iff i j, get-delete k j m)

  pub delete_absent : (k : String) (m : Dict V) → has k m ≡ false → delete k m ≡ m
  delete_absent k [] h = refl
  delete_absent k ((i, w) ∷ m) h = ground (arith, delete_absent k m)

  pub set_absent :
      (k : String) (v : V) (m : Dict V) → has k m ≡ false → set k v m ≡ m ++ (k, v) ∷ []
  set_absent k v [] h = refl
  set_absent k v ((i, w) ∷ m) h = ground (arith, set_absent k v m)

  -- A key stands once.
  abbrev pub IsMap : Dict V → Type 0
  IsMap [] = Unit
  IsMap ((k, v) ∷ m) = (has k m ≡ false) × IsMap m

  pub has-set :
      (k j : String) (v : V) (m : Dict V) → has j (set k v m) ≡ (if k === j then true else has j m)
  has-set k j v m = ground (arith, get-set k j v m)

  pub has-delete :
      (k j : String) (m : Dict V) → has j (delete k m) ≡ (if k === j then false else has j m)
  has-delete k j m = ground (arith, get-delete k j m)

  pub set-IsMap : (k : String) (v : V) (m : Dict V) → IsMap m → IsMap (set k v m)
  set-IsMap k v [] u = (refl, tt)
  set-IsMap k v ((j, w) ∷ m) u =
      ground (arith, set-IsMap k v m u.1, has-set k j v m, eq_iff j k, eq_iff k j)

  pub delete-IsMap : (k : String) (m : Dict V) → IsMap m → IsMap (delete k m)
  delete-IsMap k [] u = tt
  delete-IsMap k ((j, w) ∷ m) u = ground (arith, delete-IsMap k m u.1, has-delete k j m)

  pub delete-set_absent :
      (k : String) (v : V) (m : Dict V) → has k m ≡ false → delete k (set k v m) ≡ m
  delete-set_absent k v [] h = ground (arith, eq_iff k k)
  delete-set_absent k v ((j, w) ∷ m) h = ground (arith, delete-set_absent k v m)

  pub size-set :
      (k : String) (v : V) (m : Dict V)
      → size (set k v m) ≡ (if has k m then size m else suc (size m))
  size-set k v [] = refl
  size-set k v ((j, w) ∷ m) = ground (arith, size-set k v m)
