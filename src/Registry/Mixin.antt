-- ===== src/Registry/Mixin.antt =====
-- moirae/core/lib/decorators/mixin.decorator.ts: `applyMixins`, over the own properties of an object and
-- the metadata that reflect-metadata shows for it. `P` is what a property holds, `M` a value of metadata.
use moirae.Base.{
  String, ◌===◌, if◌then◌else◌, false, Option, none, some, List, [], ◌∷◌, ◌≡◌, refl, sym, ap, ◌∙◌,
  arith, eq_iff, All,
}
use moirae.Base.Dict.{Dict, get, has, set, get-set, IsMap}
use moirae.Registry.Decorators.{or_earlier, or_earlier-none}

pub record Target (P M : Type 0) : Type 0 where
  pub properties : Dict P
  pub metadata : Dict M

-- The prototype of a class always has the property `constructor`, which is the class.
pub record MixinClass (P M : Type 0) : Type 0 where
  pub class : P
  pub methods : Dict P
  pub metadata : Dict M

or_earlier_again {ℓ} :
    {A : Type ℓ} (a b : Option A) → or_earlier (or_earlier a b) b ≡ or_earlier a b
or_earlier_again none none = refl
or_earlier_again none (some b) = refl
or_earlier_again (some a) b = refl

module _ {M : Type 0} where
  -- `.filter((key) => !metadataMap.has(key)).forEach(…)`
  unfoldable pub add_metadata : Dict M → Dict M → Dict M
  add_metadata [] m = m
  add_metadata ((key, value) ∷ ms) m =
      let m' = if has key m then m else set key value m in add_metadata ms m'

  get-add_metadata :
      (key : String) (ms m : Dict M)
      → get key (add_metadata ms m) ≡ or_earlier (get key m) (get key ms)
  unfolding add_metadata
  get-add_metadata key [] m = sym (or_earlier-none (get key m))
  get-add_metadata key ((k, v) ∷ ms) m = ground (
    arith,
    get-add_metadata key ms (if has k m then m else set k v m),
    get-set k key v m,
    eq_iff k key,
  )

module _ {P M : Type 0} where
  -- One round over the names of the properties.
  unfoldable pub define_property : Dict M → String → P → Target P M → Target P M
  unfolding add_metadata
  define_property metadata name value t = record {
    properties = set name value t.properties;
    metadata = add_metadata metadata t.metadata;
  }

  unfoldable pub define_all : Dict M → Dict P → Target P M → Target P M
  unfolding define_property
  define_all metadata [] t = t
  define_all metadata ((name, value) ∷ ps) t =
      define_all metadata ps (define_property metadata name value t)

  unfoldable pub apply_mixin : MixinClass P M → Target P M → Target P M
  unfolding define_all define_property
  apply_mixin c t =
      define_all c.metadata c.methods (define_property c.metadata "constructor" c.class t)

  unfoldable pub apply_mixins : List (MixinClass P M) → Target P M → Target P M
  unfolding apply_mixin
  apply_mixins [] t = t
  apply_mixins (c ∷ cs) t = apply_mixins cs (apply_mixin c t)

  -- What the last of the mixins with a method of that name has, and which class is the last.
  abbrev pub last_method : String → List (MixinClass P M) → Option P → Option P
  last_method name [] p = p
  last_method name (c ∷ cs) p = last_method name cs (or_earlier (get name c.methods) p)

  abbrev pub last_class : List (MixinClass P M) → Option P → Option P
  last_class [] p = p
  last_class (c ∷ cs) p = last_class cs (some c.class)

  -- What the target has for a key, or else the first mixin that has something.
  abbrev pub first_metadata : String → List (MixinClass P M) → Option M → Option M
  first_metadata key [] m = m
  first_metadata key (c ∷ cs) m = first_metadata key cs (or_earlier m (get key c.metadata))

  get-define_all :
      (name : String) (metadata : Dict M) (ps : Dict P) (t : Target P M)
      → IsMap ps
      → get name (define_all metadata ps t).properties
        ≡ or_earlier (get name ps) (get name t.properties)
  unfolding define_all define_property
  get-define_all name metadata [] t u = refl
  get-define_all name metadata ((k, v) ∷ ps) t u = ground (
    arith,
    get-define_all name metadata ps (define_property metadata k v t) u.1,
    get-set k name v t.properties,
    eq_iff k name,
  )

  metadata-define_all :
      (key : String) (metadata : Dict M) (ps : Dict P) (t : Target P M)
      → or_earlier (get key t.metadata) (get key metadata) ≡ get key t.metadata
      → get key (define_all metadata ps t).metadata ≡ get key t.metadata
  unfolding define_all define_property
  metadata-define_all key metadata [] t h = refl
  metadata-define_all key metadata ((k, v) ∷ ps) t h =
      let there = get-add_metadata key metadata t.metadata ∙ h in
      metadata-define_all key metadata ps (define_property metadata k v t) (rw there h) ∙ there

  apply_mixin-get :
      (name key : String) (c : MixinClass P M) (t : Target P M)
      → (name === "constructor") ≡ false
      → IsMap c.methods
      → has "constructor" c.methods ≡ false
      → (get name (apply_mixin c t).properties
          ≡ or_earlier (get name c.methods) (get name t.properties))
        × (get "constructor" (apply_mixin c t).properties ≡ some c.class)
        × (get key (apply_mixin c t).metadata
            ≡ or_earlier (get key t.metadata) (get key c.metadata))
  unfolding apply_mixin define_property
  apply_mixin-get name key c t other u none_own =
      let t' = define_property c.metadata "constructor" c.class t in
      let there = get-add_metadata key c.metadata t.metadata in
      (
        get-define_all name c.metadata c.methods t' u
            ∙ ground (
              arith,
              get-set "constructor" name c.class t.properties,
              eq_iff "constructor" name,
              eq_iff name "constructor",
              other,
            ),
        get-define_all "constructor" c.metadata c.methods t' u
            ∙ ground (arith, get-set "constructor" "constructor" c.class t.properties, none_own),
        metadata-define_all key c.metadata c.methods t'
              (rw there (or_earlier_again (get key t.metadata) (get key c.metadata)))
            ∙ there,
      )

  -- The prototypes hold each name once, and `constructor` apart.
  abbrev pub AreClasses : List (MixinClass P M) → Type 0
  AreClasses = All (λ c. IsMap c.methods × (has "constructor" c.methods ≡ false))

  -- With mixins applied in order, the object has of a name what the last mixin with the name has, or else
  -- what it had; but its `constructor` is the class of the last mixin, and for a key of metadata it shows
  -- what it showed before, or else what the first mixin with the key has.
  pub apply_mixins-get :
      (name key : String) (cs : List (MixinClass P M)) (t : Target P M)
      → (name === "constructor") ≡ false
      → AreClasses cs
      → let t' = apply_mixins cs t in
        (get name t'.properties ≡ last_method name cs (get name t.properties))
        × (get "constructor" t'.properties ≡ last_class cs (get "constructor" t.properties))
        × (get key t'.metadata ≡ first_metadata key cs (get key t.metadata))
  unfolding apply_mixins
  apply_mixins-get name key [] t other u = (refl, refl, refl)
  apply_mixins-get name key (c ∷ cs) t other u =
      let (p, k, m) = apply_mixin-get name key c t other u.0.0 u.0.1 in
      let (ps, ks, ms) = apply_mixins-get name key cs (apply_mixin c t) other u.1 in
      (
        ps ∙ ap (last_method name cs) p,
        ks ∙ ap (last_class cs) k,
        ms ∙ ap (first_metadata key cs) m,
      )
