-- ===== src/Tests/Redis.antt =====
-- A server as a dictionary of texts and rows of sets, and the cache over it.
use moirae.Base.{
  String, ◌===◌, if◌then◌else◌, Bool, true, false, Option, some, List, [], ◌∷◌, ◌≡◌, refl, ◌&&◌,
  arith, eq_iff, is_some,
}
use moirae.Base.Dict.{Dict, get, set, delete, get-set, get-delete}
use moirae.Failure.{Error, ok, err, custom}
use moirae.Redis.Client.{Client, ClientLaws}
use moirae.Redis.Cache.{RedisOptions, handle_remove_from_set}
use moirae.Redis.Contract.{held, text_of, remove-held}
use moirae.Tests.Typeorm.{
  find, values_of, drop_row, drop_rows, contains-values_of, find-drop_row, find-drop_rows,
}

record Server : Type 0 where
  texts : Dict String
  sets : List (String × String)

abbrev text : Server → String → Option String
text s k = get k s.texts

abbrev member : Server → String → String → Bool
member s k v = is_some (find k v s.sets)

abbrev wrong_type : Error
wrong_type = custom "WRONGTYPE"

abbrev client : Client Server
client = record {
  s_add = λ k v s. if is_some (text s k) then (err wrong_type, s) else (
    ok (if member s k v then 0 else 1),
    record s { sets = if member s k v then s.sets else (k, v) ∷ s.sets },
  );
  s_rem = λ k v s.
      if is_some (text s k)
      then (err wrong_type, s)
      else (ok (if member s k v then 1 else 0), record s { sets = drop_row k v s.sets });
  s_members = λ k s. (if is_some (text s k) then err wrong_type else ok (values_of k s.sets), s);
  get = λ k s. (ok (text s k), s);
  set = λ k v s. (ok (some "OK"), record { texts = set k v s.texts; sets = drop_rows k s.sets });
  del = λ k s. (ok 1, record { texts = delete k s.texts; sets = drop_rows k s.sets });
  expire = λ k d s. (ok true, s);
}

client-ClientLaws : ClientLaws client text member
client-ClientLaws = record {
  s_add-set = λ k v s untyped. ground (arith, untyped);
  s_add-text = λ k v s typed. (wrong_type, ground (arith, typed));
  member-s_add = λ k v j w s untyped. ground (arith, untyped, eq_iff k j, eq_iff v w);
  text-s_add = λ k v j s. ground arith;
  s_rem-set = λ k v s untyped. ground (arith, untyped);
  member-s_rem = λ k v j w s untyped. ground (arith, untyped, find-drop_row k v j w s.sets);
  text-s_rem = λ k v j s. ground arith;
  s_members-set = λ k s untyped.
      (values_of k s.sets, ground (arith, untyped), λ (v : String). contains-values_of k v s.sets);
  set-ok = λ k v s. refl;
  text-set = λ k v j s. get-set k j v s.texts;
  member-set = λ k v j w s. find-drop_rows k j w s.sets;
  text-del = λ k j s. get-delete k j s.texts;
  member-del = λ k j w s. find-drop_rows k j w s.sets;
  del-ok = λ k s. (1, refl);
  expire-ok = λ k d s. (true, refl);
  text-expire = λ k j d s. refl;
  member-expire = λ k j w d s. refl;
}

abbrev options : RedisOptions
options = record { namespace_root = "moirae"; transaction_cache_duration = some 60 }

abbrev server : Server
server = record { texts = ("moirae__k", "v") ∷ []; sets = ("moirae__s", "a") ∷ [] }

remove-held_example :
    let (r, s') = handle_remove_from_set client options "s" "a" server in
    (r ≡ ok (held client options text member client-ClientLaws server "s" "a"))
    × ((j w : String)
        → held client options text member client-ClientLaws s' j w ≡ (
            if "s" === j && "a" === w
            then false
            else held client options text member client-ClientLaws server j w))
    × ((j : String)
        → text_of client options text member client-ClientLaws s' j
          ≡ text_of client options text member client-ClientLaws server j)
remove-held_example = remove-held client options text member client-ClientLaws "s" "a" server refl
