-- ===== src/Redis/Contract.antt =====
-- How far redis.cache.ts keeps the contract of `ICache`: its sets and its keys are one space of names.
use Prim.Native.String.{◌++◌}
use text.Mathlib.TextLemmas.{append_cancel_left}
use moirae.Base.{
  String, ◌===◌, if◌then◌else◌, Bool, true, false, not, Option, none, some, ◌≡◌, refl, ◌&&◌, arith,
  eq_iff,
}
use moirae.Failure.{Error, ok, err}
use moirae.Redis.Client.{Client, ClientLaws}
use moirae.Redis.Cache.{
  RedisOptions, default_cache_duration, prefix_key, set_expiration, handle_add_to_set,
  handle_remove_from_set, handle_set_key, drop_key, drop_set,
}

prefix_key-injective : (o : RedisOptions) (a b : String) → prefix_key o a ≡ prefix_key o b → a ≡ b
prefix_key-injective o a b e =
    append_cancel_left "__" a b (append_cancel_left o.namespace_root ("__" ++ a) ("__" ++ b) e)

module _ {St : Type 0} (c : Client St) (o : RedisOptions) (text : St → String → Option String)
    (member : St → String → String → Bool) (laws : ClientLaws c text member) where
  -- The set of a key of the cache has a value.
  abbrev pub held : St → String → String → Bool
  held s key value = member s (prefix_key o key) value

  -- The value of a key of the cache, if it is a text.
  abbrev pub text_of : St → String → Option String
  text_of s key = text s (prefix_key o key)

  -- On a key that holds no text: `addToSet` says whether the value is new, adds it, and touches no other
  -- value, set or text.
  pub add-held :
      (k v : String) (s : St)
      → text_of s k ≡ none
      → let (r, s') = handle_add_to_set c o k v s in
        (r ≡ ok (not (held s k v)))
        × ((j w : String) → held s' j w ≡ (if k === j && v === w then true else held s j w))
        × ((j : String) → text_of s' j ≡ text_of s j)
  unfolding handle_add_to_set set_expiration
  add-held k v s untyped =
      let p = prefix_key o k in
      let d = default_cache_duration o in
      let s₁ = (c.s_add p v s).1 in
      let (b, fine) = laws.expire-ok p d s₁ in
      let added = laws.s_add-set p v s untyped in
      (
        ground (arith, added, fine),
        λ (j : String) (w : String). ground (
          arith,
          added,
          fine,
          laws.member-expire p (prefix_key o j) w d s₁,
          laws.member-s_add p v (prefix_key o j) w s untyped,
          prefix_key-injective o k j,
          eq_iff k j,
          eq_iff p (prefix_key o j),
        ),
        λ (j : String). ground (
          arith,
          added,
          fine,
          laws.text-expire p (prefix_key o j) d s₁,
          laws.text-s_add p v (prefix_key o j) s,
        ),
      )

  -- So does `removeFromSet`, which says whether the value was there.
  pub remove-held :
      (k v : String) (s : St)
      → text_of s k ≡ none
      → let (r, s') = handle_remove_from_set c o k v s in
        (r ≡ ok (held s k v))
        × ((j w : String) → held s' j w ≡ (if k === j && v === w then false else held s j w))
        × ((j : String) → text_of s' j ≡ text_of s j)
  unfolding handle_remove_from_set set_expiration
  remove-held k v s untyped =
      let p = prefix_key o k in
      let d = default_cache_duration o in
      let s₁ = (c.s_rem p v s).1 in
      let (b, fine) = laws.expire-ok p d s₁ in
      let removed = laws.s_rem-set p v s untyped in
      (
        ground (arith, removed, fine),
        λ (j : String) (w : String). ground (
          arith,
          removed,
          fine,
          laws.member-expire p (prefix_key o j) w d s₁,
          laws.member-s_rem p v (prefix_key o j) w s untyped,
          prefix_key-injective o k j,
          eq_iff k j,
          eq_iff p (prefix_key o j),
        ),
        λ (j : String). ground (
          arith,
          removed,
          fine,
          laws.text-expire p (prefix_key o j) d s₁,
          laws.text-s_rem p v (prefix_key o j) s,
        ),
      )

  -- One key for a set and for a text: `setKey` loses the set that the key had, and then `addToSet` on it
  -- throws; dropping the key drops the text and would drop the set.
  pub set_key_loses_set :
      (k v w x : String) (s : St)
      → let s₁ = (handle_set_key c o k v s).1 in
        (held s₁ k w ≡ false)
        × (e : Error) × ((handle_add_to_set c o k x s₁).0 ≡ err e)
        × (held (drop_key c o k s).1 k w ≡ false)
        × (text_of (drop_set c o k s₁).1 k ≡ none)
  unfolding handle_set_key handle_add_to_set drop_key drop_set
  set_key_loses_set k v w x s =
      let p = prefix_key o k in
      let s₁ = (c.set p v s).1 in
      let done = laws.set-ok p v s in
      let here : text s₁ p ≡ some v = ground (arith, laws.text-set p v p s, eq_iff p p) in
      let (e, refused) = laws.s_add-text p x s₁ (rw here refl) in
      let (n, gone) = laws.del-ok p s in
      let (m, gone') = laws.del-ok p s₁ in
      (
        ground (arith, done, laws.member-set p v p w s, eq_iff p p),
        e,
        ground (arith, done, refused),
        ground (arith, gone, laws.member-del p p w s, eq_iff p p),
        ground (arith, done, gone', laws.text-del p p s₁, eq_iff p p),
      )
