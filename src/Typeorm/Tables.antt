-- ===== src/Typeorm/Tables.antt =====
-- The repositories of the package typeorm that typeorm.cache.ts calls, over the entities of
-- moirae/typeorm/lib/entities, as a parameter: the calls, and what they do by the documentation of
-- `Repository` with the unique index on (setKey, value) and the cascade from a set to its values.
use moirae.Base.{
  ℕ, String, ◌===◌, if◌then◌else◌, ltb, Bool, true, false, Option, none, some, List, ◌≡◌, ◌&&◌,
  is_some,
}
use moirae.Base.Sets.{contains}

-- `E` is the entity of a set value.
pub record Tables (St E : Type 0) : Type 0 where
  -- `setValueRepository`: `findOne({ where: { setKey, value } })`
  pub find_value : String → String → St → Option E
  pub find_values : String → St → List String
  pub save_value : String → String → St → St
  pub remove_value : E → St → St
  pub delete_values : String → St → St
  pub delete_all_values : St → St
  -- `setRootRepository`; `save({ key, values: [{ value }] })` saves the value too
  pub count_roots : String → St → ℕ
  pub save_root : String → String → St → St
  pub delete_roots : String → St → St
  pub delete_all_roots : St → St
  -- `keyRepository`
  pub find_key : String → St → Option String
  pub save_key : String → String → St → St
  pub delete_key : String → St → St
  pub delete_all_keys : St → St

-- `row s k v`: there is a row with the set key `k` and the value `v`. A write that the unique index
-- or the foreign key of a value to its set refuses, as where a value is saved without its set, and deleting a
-- set that has values, are not spoken of.
pub record TableLaws {St E : Type 0} (t : Tables St E) (row : St → String → String → Bool)
    : Type 0 where
  pub find-row : (k v : String) (s : St) → is_some (t.find_value k v s) ≡ row s k v
  pub contains-find : (k v : String) (s : St) → contains v (t.find_values k s) ≡ row s k v
  pub row-save :
      (k v j w : String) (s : St)
      → row s k v ≡ false
      → ltb 0 (t.count_roots k s) ≡ true
      → row (t.save_value k v s) j w ≡ (if k === j && v === w then true else row s j w)
  pub row-save_root :
      (k v j w : String) (s : St)
      → t.count_roots k s ≡ 0
      → row (t.save_root k v s) j w ≡ (if k === j && v === w then true else row s j w)
  pub row-remove :
      (k v j w : String) (s : St) (entity : E)
      → t.find_value k v s ≡ some entity
      → row (t.remove_value entity s) j w ≡ (if k === j && v === w then false else row s j w)
  pub row-delete :
      (k j w : String) (s : St)
      → row (t.delete_roots k (t.delete_values k s)) j w ≡ (if k === j then false else row s j w)
  pub row-delete_all :
      (j w : String) (s : St)
      → row (t.delete_all_keys (t.delete_all_roots (t.delete_all_values s))) j w ≡ false
  pub find_key-save :
      (k v j : String) (s : St)
      → t.find_key j (t.save_key k v s) ≡ (if k === j then some v else t.find_key j s)
  pub find_key-delete :
      (k j : String) (s : St)
      → t.find_key j (t.delete_key k s) ≡ (if k === j then none else t.find_key j s)
  pub find_key-delete_all :
      (j : String) (s : St)
      → t.find_key j (t.delete_all_keys (t.delete_all_roots (t.delete_all_values s))) ≡ none
