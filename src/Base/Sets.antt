-- ===== src/Base/Sets.antt =====
-- A JavaScript `Set` of texts: its members in insertion order.
use Prim.Native.String.{String}
use mathlib.Core.Bool.{Bool, true, false}
use mathlib.Core.List.{List, [], ◌∷◌, ◌++◌}
use mathlib.Core.Path.{◌≡◌, refl}
use native.Mathlib.Omega.{arith}
use text.Mathlib.TextEquality.{eq_iff}
use moirae.Base.Tests.{◌===◌, if◌then◌else◌}

abbrev pub contains : String → List String → Bool
contains v [] = false
contains v (w ∷ ws) = if w === v then true else contains v ws

abbrev pub add : String → List String → List String
add v ws = if contains v ws then ws else ws ++ v ∷ []

abbrev pub remove : String → List String → List String
remove v [] = []
remove v (w ∷ ws) = if w === v then remove v ws else w ∷ remove v ws

pub contains-append :
    (v w : String) (ws : List String)
    → contains w (ws ++ v ∷ []) ≡ (if v === w then true else contains w ws)
contains-append v w [] = refl
contains-append v w (u ∷ us) = ground (arith, contains-append v w us)

pub contains-add :
    (v w : String) (ws : List String)
    → contains w (add v ws) ≡ (if v === w then true else contains w ws)
contains-add v w ws = ground (arith, contains-append v w ws, eq_iff v w)

pub contains-remove :
    (v w : String) (ws : List String)
    → contains w (remove v ws) ≡ (if v === w then false else contains w ws)
contains-remove v w [] = ground arith
contains-remove v w (u ∷ us) =
    ground (arith, contains-remove v w us, eq_iff u v, eq_iff u w, eq_iff v w)
