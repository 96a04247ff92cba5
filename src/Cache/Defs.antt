-- ===== src/Cache/Defs.antt =====
-- moirae/core/lib/classes/base.cache.ts. A cache is the operations that the base class leaves abstract
-- and those of `ICache` that it lacks. `JSON` is a parameter: what is stored is read back.
use moirae.Base.{
  String, ◌===◌, if◌then◌else◌, Bool, true, false, not, Option, none, some, List, map, ◌≡◌, ◌&&◌,
}
use moirae.Base.Sets.{contains}

pub record Handles (St : Type 0) : Type 0 where
  pub handle_add_to_set : String → String → St → Bool × St
  pub handle_get_key : String → St → Option String
  pub handle_read_from_set : String → St → List String
  pub handle_remove_from_set : String → String → St → Bool × St
  pub handle_set_key : String → String → St → Bool × St
  pub drop_key : String → St → St
  pub drop_set : String → St → St

pub record Json (V : Type 0) : Type 0 where
  pub stringify : V → String
  pub parse : String → V
  -- `!value` is false
  pub is_truthy : V → Bool
  pub parse-stringify : (v : V) → parse (stringify v) ≡ v
  pub stringify_ne_empty : (v : V) → (stringify v === "") ≡ false

module _ {St V : Type 0} (json : Json V) (cache : Handles St) where
  unfoldable pub add_to_set : String → V → St → Bool × St
  add_to_set key value = cache.handle_add_to_set key (json.stringify value)

  -- `options.transform?.(value) || value`
  abbrev transformed : Option (V → V) → V → V
  transformed none v = v
  transformed (some f) v = if json.is_truthy (f v) then f v else v

  read_raw : Option (V → V) → Option String → Option V
  read_raw f none = none
  read_raw f (some raw) = if raw === "" then none else some (transformed f (json.parse raw))

  unfoldable pub get_key : String → Option (V → V) → St → Option V
  unfolding read_raw
  get_key key transform s = read_raw transform (cache.handle_get_key key s)

  unfoldable pub read_from_set : String → Option (V → V) → St → List V
  read_from_set key transform s =
      map (λ raw. transformed transform (json.parse raw)) (cache.handle_read_from_set key s)

  unfoldable pub remove_from_set : String → V → St → Bool × St
  remove_from_set key value = cache.handle_remove_from_set key (json.stringify value)

  unfoldable pub set_key : String → V → St → Bool × St
  set_key key value s = (true, (cache.handle_set_key key (json.stringify value) s).1)

-- What `ICache` promises of its sets: `holds s k v` says that the set `k` has the value `v`.
pub record SetLaws {St : Type 0} (cache : Handles St) (holds : St → String → String → Bool)
    : Type 0 where
  -- `true` exactly if the value is new
  pub add_result : (k v : String) (s : St) → (cache.handle_add_to_set k v s).0 ≡ not (holds s k v)
  pub holds-add :
      (k v j w : String) (s : St)
      → holds (cache.handle_add_to_set k v s).1 j w
        ≡ (if k === j && v === w then true else holds s j w)
  -- `true` exactly if the value was there
  pub remove_result : (k v : String) (s : St) → (cache.handle_remove_from_set k v s).0 ≡ holds s k v
  pub holds-remove :
      (k v j w : String) (s : St)
      → holds (cache.handle_remove_from_set k v s).1 j w
        ≡ (if k === j && v === w then false else holds s j w)
  pub contains-read :
      (k w : String) (s : St) → contains w (cache.handle_read_from_set k s) ≡ holds s k w
  pub holds-drop :
      (k j w : String) (s : St)
      → holds (cache.drop_set k s) j w ≡ (if k === j then false else holds s j w)

-- What it promises of its keys.
pub record KeyLaws {St : Type 0} (cache : Handles St) : Type 0 where
  pub get-set :
      (k j v : String) (s : St)
      → cache.handle_get_key j (cache.handle_set_key k v s).1
        ≡ (if k === j then some v else cache.handle_get_key j s)
  pub get-drop :
      (k j : String) (s : St)
      → cache.handle_get_key j (cache.drop_key k s)
        ≡ (if k === j then none else cache.handle_get_key j s)
