-- ===== src/Tests/Typeorm.antt =====
-- Tables as lists of rows, and the TypeORM cache over them.
use moirae.Base.{
  String, ◌===◌, if◌then◌else◌, Bool, false, Option, none, some, List, [], ◌∷◌, ◌≡◌, refl, ◌&&◌,
  arith, eq_iff, is_some,
}
use moirae.Base.Dict.{Dict, get, set, delete, get-set, get-delete}
use moirae.Base.Sets.{contains}
use moirae.Cache.{SetLaws, KeyLaws}
use moirae.Typeorm.Tables.{Tables, TableLaws}
use moirae.Typeorm.Cache.{typeorm_cache, held, typeorm-SetLaws, typeorm-KeyLaws}

record Rows : Type 0 where
  values : List (String × String)
  roots : List String
  keys : Dict String

abbrev pub is_row : String → String → String × String → Bool
is_row k v (j, w) = j === k && w === v

abbrev pub find : String → String → List (String × String) → Option (String × String)
find k v [] = none
find k v (r ∷ rs) = if is_row k v r then some (k, v) else find k v rs

abbrev pub values_of : String → List (String × String) → List String
values_of k [] = []
values_of k ((j, w) ∷ rs) = if j === k then w ∷ values_of k rs else values_of k rs

abbrev pub drop_row : String → String → List (String × String) → List (String × String)
drop_row k v [] = []
drop_row k v (r ∷ rs) = if is_row k v r then drop_row k v rs else r ∷ drop_row k v rs

abbrev pub drop_rows : String → List (String × String) → List (String × String)
drop_rows k [] = []
drop_rows k ((j, w) ∷ rs) = if j === k then drop_rows k rs else (j, w) ∷ drop_rows k rs

abbrev without : String → List String → List String
without k [] = []
without k (j ∷ js) = if j === k then without k js else j ∷ without k js

abbrev tables : Tables Rows (String × String)
tables = record {
  find_value = λ k v s. find k v s.values;
  find_values = λ k s. values_of k s.values;
  save_value = λ k v s. if contains k s.roots then record s { values = (k, v) ∷ s.values } else s;
  remove_value = λ e s. record s { values = drop_row e.0 e.1 s.values };
  delete_values = λ k s. record s { values = drop_rows k s.values };
  delete_all_values = λ s. record s { values = [] };
  count_roots = λ k s. if contains k s.roots then 1 else 0;
  save_root = λ k v s. record s { roots = k ∷ s.roots; values = (k, v) ∷ s.values };
  delete_roots = λ k s. record s { roots = without k s.roots };
  delete_all_roots = λ s. record s { roots = [] };
  find_key = λ k s. get k s.keys;
  save_key = λ k v s. record s { keys = set k v s.keys };
  delete_key = λ k s. record s { keys = delete k s.keys };
  delete_all_keys = λ s. record s { keys = [] };
}

abbrev row : Rows → String → String → Bool
row s k v = is_some (find k v s.values)

pub contains-values_of :
    (k v : String) (rs : List (String × String))
    → contains v (values_of k rs) ≡ is_some (find k v rs)
contains-values_of k v [] = refl
contains-values_of k v ((j, w) ∷ rs) = ground (arith, contains-values_of k v rs)

pub find-drop_row :
    (k v j w : String) (rs : List (String × String))
    → is_some (find j w (drop_row k v rs))
      ≡ (if k === j && v === w then false else is_some (find j w rs))
find-drop_row k v j w [] = ground arith
find-drop_row k v j w ((i, x) ∷ rs) = ground (
  arith,
  find-drop_row k v j w rs,
  eq_iff k j,
  eq_iff v w,
  eq_iff i k,
  eq_iff x v,
  eq_iff i j,
  eq_iff x w,
)

pub find-drop_rows :
    (k j w : String) (rs : List (String × String))
    → is_some (find j w (drop_rows k rs)) ≡ (if k === j then false else is_some (find j w rs))
find-drop_rows k j w [] = ground arith
find-drop_rows k j w ((i, x) ∷ rs) =
    ground (arith, find-drop_rows k j w rs, eq_iff k j, eq_iff i k, eq_iff i j)

find_eq :
    (k v : String) (rs : List (String × String)) (e : String × String)
    → find k v rs ≡ some e
    → (e.0 ≡ k) × (e.1 ≡ v)
find_eq k v [] e h = absurd (ground arith)
find_eq k v (r ∷ rs) e h = ground (arith, find_eq k v rs e)

tables-TableLaws : TableLaws tables row
tables-TableLaws = record {
  find-row = λ k v s. refl;
  contains-find = λ k v s. contains-values_of k v s.values;
  row-save = λ k v j w s new rooted. ground (arith, rooted);
  row-save_root = λ k v j w s none_yet. ground arith;
  row-remove = λ k v j w s e found.
      ground (arith, find-drop_row e.0 e.1 j w s.values, find_eq k v s.values e found);
  row-delete = λ k j w s. find-drop_rows k j w s.values;
  row-delete_all = λ j w s. refl;
  find_key-save = λ k v j s. get-set k j v s.keys;
  find_key-delete = λ k j s. get-delete k j s.keys;
  find_key-delete_all = λ j s. refl;
}

abbrev plain : String → String
plain k = k

typeorm-SetLaws_example :
    SetLaws (typeorm_cache tables plain) (held tables plain row tables-TableLaws (λ a b e. e))
typeorm-SetLaws_example = typeorm-SetLaws tables plain row tables-TableLaws (λ a b e. e)

typeorm-KeyLaws_example : KeyLaws (typeorm_cache tables plain)
typeorm-KeyLaws_example = typeorm-KeyLaws tables plain row tables-TableLaws (λ a b e. e)

abbrev rows : Rows
rows = record { values = ("s", "a") ∷ []; roots = "s" ∷ []; keys = ("k", "v") ∷ [] }
