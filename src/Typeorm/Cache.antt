-- ===== src/Typeorm/Cache.antt =====
-- moirae/typeorm/lib/caches/typeorm.cache.ts, and that it keeps the contract of `ICache` over tables
-- that do what they document. `sha1` of object-hash is a parameter, which tells keys apart.
use moirae.Base.{
  String, ◌===◌, ltb, if◌then◌else◌, Bool, true, false, none, some, ◌≡◌, refl, ◌&&◌, arith, eq_iff,
  is_some, Option-cases, inl, inr,
}
use moirae.Cache.{Handles, SetLaws, KeyLaws}
use moirae.Typeorm.Tables.{Tables, TableLaws}

module _ {St E : Type 0} (t : Tables St E) (sha1 : String → String) where
  unfoldable pub handle_add_to_set : String → String → St → Bool × St
  handle_add_to_set key value s =
      if is_some (t.find_value (sha1 key) value s) then (false, s) else (
        true,
        if ltb 0 (t.count_roots (sha1 key) s)
            then t.save_value (sha1 key) value s
            else t.save_root (sha1 key) value s,
      )

  unfoldable pub handle_remove_from_set : String → String → St → Bool × St
  handle_remove_from_set key value s = elim (t.find_value (sha1 key) value s) [
    | none ↦ (false, s)
    | some entity ↦ (true, t.remove_value entity s)
  ]

  unfoldable pub typeorm_cache : Handles St
  unfolding handle_add_to_set handle_remove_from_set
  typeorm_cache = record {
    handle_add_to_set = handle_add_to_set;
    handle_get_key = λ key s. t.find_key (sha1 key) s;
    handle_read_from_set = λ key s. t.find_values (sha1 key) s;
    handle_remove_from_set = handle_remove_from_set;
    handle_set_key = λ key value s. (true, t.save_key (sha1 key) value s);
    drop_key = λ key s. t.delete_key (sha1 key) s;
    drop_set = λ key s. t.delete_roots (sha1 key) (t.delete_values (sha1 key) s);
  }

  -- `onApplicationBootstrap`, with the option `clear`
  unfoldable pub bootstrap : Bool → St → St
  bootstrap clear s =
      if clear then t.delete_all_keys (t.delete_all_roots (t.delete_all_values s)) else s

  module _ (row : St → String → String → Bool) (laws : TableLaws t row)
      (injective : (a b : String) → sha1 a ≡ sha1 b → a ≡ b) where
    -- The set of a key has a value.
    unfoldable pub held : St → String → String → Bool
    held s key value = row s (sha1 key) value

    held-add :
        (k v j w : String) (s : St)
        → held (handle_add_to_set k v s).1 j w ≡ (if k === j && v === w then true else held s j w)
    unfolding held handle_add_to_set
    held-add k v j w s = ground (
      arith,
      laws.find-row (sha1 k) v s,
      laws.row-save (sha1 k) v (sha1 j) w s,
      laws.row-save_root (sha1 k) v (sha1 j) w s,
      injective k j,
      eq_iff k j,
      eq_iff v w,
      eq_iff (sha1 k) (sha1 j),
    )

    held-remove :
        (k v j w : String) (s : St)
        → held (handle_remove_from_set k v s).1 j w
          ≡ (if k === j && v === w then false else held s j w)
    unfolding held handle_remove_from_set
    held-remove k v j w s = elim (Option-cases (t.find_value (sha1 k) v s)) [
      | inl e ↦ ground (arith, e, laws.find-row (sha1 k) v s, eq_iff k j, eq_iff v w)
      | inr (entity, e) ↦ ground (
        arith,
        e,
        laws.row-remove (sha1 k) v (sha1 j) w s entity,
        injective k j,
        eq_iff k j,
        eq_iff (sha1 k) (sha1 j),
      )
    ]

    -- The TypeORM cache keeps the contract of the sets, over tables that do what they document and with
    -- digests that tell keys apart.
    pub typeorm-SetLaws : SetLaws typeorm_cache held
    unfolding held typeorm_cache
    typeorm-SetLaws = record {
      add_result = λ k v s. ground (arith, laws.find-row (sha1 k) v s);
      holds-add = held-add;
      remove_result = λ k v s. ground (arith, laws.find-row (sha1 k) v s);
      holds-remove = held-remove;
      contains-read = λ k w s. laws.contains-find (sha1 k) w s;
      holds-drop = λ k j w s. ground (
        arith,
        laws.row-delete (sha1 k) (sha1 j) w s,
        injective k j,
        eq_iff k j,
        eq_iff (sha1 k) (sha1 j),
      );
    }

    -- So it does for the keys.
    pub typeorm-KeyLaws : KeyLaws typeorm_cache
    unfolding typeorm_cache
    typeorm-KeyLaws = record {
      get-set = λ k j v s. ground (
        arith,
        laws.find_key-save (sha1 k) v (sha1 j) s,
        injective k j,
        eq_iff k j,
        eq_iff (sha1 k) (sha1 j),
      );
      get-drop = λ k j s. ground (
        arith,
        laws.find_key-delete (sha1 k) (sha1 j) s,
        injective k j,
        eq_iff k j,
        eq_iff (sha1 k) (sha1 j),
      );
    }

    -- After the bootstrap a cache with the option `clear` has no set value and no key; without it,
    -- the bootstrap does nothing.
    pub bootstrap-clear :
        (k v : String) (s : St)
        → (held (bootstrap true s) k v ≡ false)
          × (typeorm_cache.handle_get_key k (bootstrap true s) ≡ none)
          × (bootstrap false s ≡ s)
    unfolding held typeorm_cache bootstrap
    bootstrap-clear k v s =
        (laws.row-delete_all (sha1 k) v s, laws.find_key-delete_all (sha1 k) s, refl)
