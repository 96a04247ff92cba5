-- ===== src/Redis/Cache.antt =====
-- moirae/redis/lib/caches/redis.cache.ts. The optional durations of the protected methods are not given:
-- `BaseCache`, their only caller, passes none.
use Prim.Native.String.{◌++◌}
use moirae.Base.{ℕ, String, ◌==◌, if◌then◌else◌, Bool, not, Option, none, some, List, truthy}
use moirae.Failure.{Action, pure, ◌>>=◌}
use moirae.Redis.Client.{Client}

pub record RedisOptions : Type 0 where
  pub namespace_root : String
  pub transaction_cache_duration : Option ℕ

-- `options.transactionCacheDuration || 172800`
abbrev pub default_cache_duration : RedisOptions → ℕ
default_cache_duration o = elim o.transaction_cache_duration [
  | none ↦ 172800
  | some d ↦ if d == 0 then 172800 else d
]

abbrev pub prefix_key : RedisOptions → String → String
prefix_key o key = o.namespace_root ++ ("__" ++ key)

module _ {St : Type 0} (c : Client St) (o : RedisOptions) where
  unfoldable pub set_expiration : String → Action St Bool
  set_expiration key = c.expire (prefix_key o key) (default_cache_duration o)

  unfoldable pub handle_add_to_set : String → String → Action St Bool
  unfolding set_expiration
  handle_add_to_set key value = do
    res ← c.s_add (prefix_key o key) value
    expires ← set_expiration key
    pure (not (res == 0))

  unfoldable pub handle_read_from_set : String → Action St (List String)
  unfolding set_expiration
  handle_read_from_set key = do
    output ← c.s_members (prefix_key o key)
    expires ← set_expiration key
    pure output

  unfoldable pub handle_remove_from_set : String → String → Action St Bool
  unfolding set_expiration
  handle_remove_from_set key value = do
    res ← c.s_rem (prefix_key o key) value
    expires ← set_expiration key
    pure (not (res == 0))

  unfoldable pub handle_get_key : String → Action St (Option String)
  handle_get_key key = c.get (prefix_key o key)

  unfoldable pub handle_set_key : String → String → Action St Bool
  handle_set_key key value = do res ← c.set (prefix_key o key) value; pure (truthy res)

  unfoldable pub drop_key : String → Action St (Unit {0})
  drop_key key = do n ← c.del (prefix_key o key); pure tt

  unfoldable pub drop_set : String → Action St (Unit {0})
  unfolding drop_key
  drop_set key = drop_key key
