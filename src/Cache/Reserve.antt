-- ===== src/Cache/Reserve.antt =====
-- `reserveValue` and `releaseValue` of moirae/core/lib/classes/aggregate-root.class.ts, over any cache
-- that keeps the contract of `ICache`. `sha1` of the package object-hash is a parameter.
use moirae.Base.{String, Bool, true, false, ◌≡◌, arith, eq_iff, ◌≢◌}
use Prim.Native.String.{◌++◌}
use moirae.Cache.Defs.{Handles, Json, SetLaws, add_to_set, remove_from_set}

module _ {St V : Type 0} (json : Json String) (sha1 : V → String) (cache : Handles St) where
  -- The key of a set of reserved values: `${this.constructor.name}__${propertyName}`.
  abbrev pub reserve_key : String → String → String
  reserve_key aggregate property = aggregate ++ "__" ++ property

  unfoldable pub reserve_value : String → String → V → St → Bool × St
  reserve_value aggregate property value =
      add_to_set json cache (reserve_key aggregate property) (sha1 value)

  unfoldable pub release_value : String → String → V → St → Bool × St
  release_value aggregate property value =
      remove_from_set json cache (reserve_key aggregate property) (sha1 value)

  module _ (holds : St → String → String → Bool) (laws : SetLaws cache holds) where
    -- Over a cache that keeps its contract, a value is reserved once: of two reservations in a row the
    -- second is refused, until the value is released; the release reports that it was reserved, and a
    -- reservation succeeds again.
    pub reserve_once :
        (c p : String) (v : V) (s : St)
        → let s₁ = (reserve_value c p v s).1 in
          let (released, s₂) = release_value c p v s₁ in
          ((reserve_value c p v s₁).0 ≡ false)
          × (released ≡ true)
          × ((reserve_value c p v s₂).0 ≡ true)
    unfolding reserve_value release_value add_to_set remove_from_set
    reserve_once c p v s =
        let k = reserve_key c p in
        let x = json.stringify (sha1 v) in
        let added = (cache.handle_add_to_set k x s).1 in
        ground (
          arith,
          laws.add_result k x added,
          laws.holds-add k x k x s,
          laws.remove_result k x added,
          laws.add_result k x (cache.handle_remove_from_set k x added).1,
          laws.holds-remove k x k x added,
          eq_iff k k,
          eq_iff x x,
        )

    -- Over a cache that keeps its contract, the reservation of a value has no effect on that of a value
    -- with another digest.
    pub reserve_other :
        (c p : String) (v w : V) (s : St)
        → sha1 v ≢ sha1 w
        → (reserve_value c p w (reserve_value c p v s).1).0 ≡ (reserve_value c p w s).0
    unfolding reserve_value add_to_set
    reserve_other c p v w s ne =
        let k = reserve_key c p in
        let x = json.stringify (sha1 v) in
        let y = json.stringify (sha1 w) in
        ground (
          arith,
          laws.add_result k y (cache.handle_add_to_set k x s).1,
          laws.add_result k y s,
          laws.holds-add k x k y s,
          eq_iff x y,
          json.parse-stringify (sha1 v),
          json.parse-stringify (sha1 w),
        )
