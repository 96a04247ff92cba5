-- ===== src/Tests/Mixin.antt =====
-- An object with a mixin that overrides a method.
use moirae.Base.{String, ◌≡◌, refl, some, [], ◌∷◌}
use moirae.Base.Dict.{get}
use moirae.Registry.Mixin.{Target, MixinClass, apply_mixins, apply_mixins-get}

abbrev target : Target String String
target = record {
  properties = ("void", "old") ∷ [];
  metadata = ("__apply_event_metadata__:E", "handleE") ∷ [];
}

abbrev mixin : MixinClass String String
mixin = record {
  class = "DynamicMixin";
  methods = ("void", "new") ∷ [];
  metadata = ("__apply_event_metadata__:E", "void") ∷ [];
}

apply_mixins-get_example :
    let t' = apply_mixins (mixin ∷ []) target in
    (get "void" t'.properties ≡ some "new")
    × (get "constructor" t'.properties ≡ some "DynamicMixin")
    × (get "__apply_event_metadata__:E" t'.metadata ≡ some "handleE")
apply_mixins-get_example =
    apply_mixins-get "void" "__apply_event_metadata__:E" (mixin ∷ []) target refl
      (((refl, tt), refl), tt)
