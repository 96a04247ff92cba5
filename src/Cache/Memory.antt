-- ===== src/Cache/Memory.antt =====
-- moirae/core/lib/caches/memory.cache.ts, and that it keeps the contract of `ICache`.
use moirae.Base.{
  String, ◌===◌, if◌then◌else◌, Bool, true, false, not, none, some, List, [], ◌≡◌, refl, arith,
  eq_iff,
}
use moirae.Base.Dict.{Dict, get, has, set, delete, get-set, get-delete}
use moirae.Base.Sets.{contains, add, remove, contains-add, contains-remove}
use moirae.Cache.Defs.{Handles, SetLaws, KeyLaws}

pub record MemoryCache : Type 0 where
  pub key_value : Dict String
  pub sets : Dict (List String)

-- `this._sets.get(key) || []`
abbrev members : String → MemoryCache → List String
members k c = elim (get k c.sets) [ none ↦ [] | some s ↦ s ]

unfoldable pub empty : MemoryCache
empty = record { key_value = []; sets = [] }

unfoldable pub handle_add_to_set : String → String → MemoryCache → Bool × MemoryCache
handle_add_to_set key value c =
    let sets = if has key c.sets then c.sets else set key [] c.sets in
    let c' : MemoryCache = record c { sets = sets } in
    (
      not (contains value (members key c')),
      record c' { sets = set key (add value (members key c')) c'.sets },
    )

unfoldable pub handle_remove_from_set : String → String → MemoryCache → Bool × MemoryCache
handle_remove_from_set key value c =
    if has key c.sets
    then (
      contains value (members key c),
      record c { sets = set key (remove value (members key c)) c.sets },
    )
    else (false, c)

unfoldable pub memory_cache : Handles MemoryCache
unfolding handle_add_to_set handle_remove_from_set
memory_cache = record {
  handle_add_to_set = handle_add_to_set;
  handle_get_key = λ key c. get key c.key_value;
  handle_read_from_set = λ key c. members key c;
  handle_remove_from_set = handle_remove_from_set;
  handle_set_key = λ key value c. (true, record c { key_value = set key value c.key_value });
  drop_key = λ key c. record c { key_value = delete key c.key_value };
  drop_set = λ key c. record c { sets = delete key c.sets };
}

unfoldable pub holds : MemoryCache → String → String → Bool
holds c k v = contains v (members k c)

members-add :
    (k v j : String) (c : MemoryCache)
    → members j (handle_add_to_set k v c).1 ≡ (if k === j then add v (members k c) else members j c)
unfolding handle_add_to_set
members-add k v j c =
    let fresh = set k [] c.sets in
    ground (
      arith,
      get-set k j (add v (members k c)) c.sets,
      get-set k j (add v []) fresh,
      get-set k j [] c.sets,
      get-set k k [] c.sets,
      eq_iff k k,
      eq_iff k j,
    )

-- The in-memory cache keeps the contract of the sets: a value is added once, an answer says whether it
-- was new or was there, and no other set or value is touched.
pub memory-SetLaws : SetLaws memory_cache holds
unfolding memory_cache holds
memory-SetLaws = record {
  add_result = λ k v c. ground (arith, get-set k k [] c.sets, eq_iff k k);
  holds-add =
      λ k v j w c. ground (arith, members-add k v j c, contains-add v w (members k c), eq_iff k j);
  remove_result = λ k v c. ground arith;
  holds-remove = λ k v j w c. ground (
    arith,
    get-set k j (remove v (members k c)) c.sets,
    contains-remove v w (members k c),
    eq_iff k j,
  );
  contains-read = λ k w c. refl;
  holds-drop = λ k j w c. ground (arith, get-delete k j c.sets);
}

-- The in-memory cache keeps the contract of the keys: a key has the value that was set last, until it is
-- dropped, and no other key is touched.
pub memory-KeyLaws : KeyLaws memory_cache
unfolding memory_cache
memory-KeyLaws = record {
  get-set = λ k j v c. get-set k j v c.key_value;
  get-drop = λ k j c. get-delete k j c.key_value;
}
