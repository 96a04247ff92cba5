-- ===== src/Publisher/Responses.antt =====
-- `awaitResponse` of moirae/core/lib/classes/base.publisher.ts: who waits for a response gets it.
use mathlib.Core.Path.{subst}
use moirae.Base.{
  ℕ, String, Bool, true, false, Option, none, some, ◌≡◌, refl, arith, eq_iff, ap, suc, ◌∙◌,
}
use moirae.Base.Dict.{get, get-set, get-delete, has-delete, size-set}
use moirae.Failure.{Result, ok, err, async_map_timeout}
use moirae.AsyncMap.{AsyncMap, Waiter, wait_get, lookup, resume, time_out, size}
use moirae.AsyncMap
use moirae.AsyncMap.Live.{Live, set-map}
use moirae.AsyncMap.History.{IsNew, wait_get-Live, time_out-Live}
use moirae.AsyncMap.Wake.{set-wakes, set-unresolved}
use moirae.Publisher.Defs.{Publisher, Response, Wire, handle_response}

-- A response is an object, which is true.
abbrev is_object : {R : Type 0} → Response R → Bool
is_object r = true

module _ {D R : Type 0} where
  -- `awaitResponse` until its `await`, with the id and the listener of the wait, or all of it if the
  -- response is there.
  unfoldable pub await_response :
      String → ℕ → String → Publisher D R → Option (Option (Response R)) × Publisher D R
  await_response id listener key p =
      let (found, m) = wait_get is_object id listener key p.response_map in
      (found, record p { response_map = elim found [ none ↦ m | some r ↦ AsyncMap.delete key m ] })

  -- The rest of it, when the wait is resolved.
  unfoldable pub go_on :
      String → String → Publisher D R → Option (Result (Response R)) × Publisher D R
  go_on id key p =
      let (found, m) = resume id p.response_map in
      (found, record p { response_map = elim found [ none ↦ m | some r ↦ AsyncMap.delete key m ] })

  -- The timer of the wait runs out, and `awaitResponse` throws.
  unfoldable pub give_up : String → Publisher D R → Option (Result (Response R)) × Publisher D R
  give_up id p =
      let (found, m) = time_out id p.response_map in (found, record p { response_map = m })

module _ {D R : Type 0} (wire : Wire D R) where
  -- A call with a new id and a listener of its own waits for a response that is not there. When it comes,
  -- the call goes on and returns it, and the key is not in the map any more.
  pub await-respond :
      (id : String) (listener : ℕ) (text : String) (p : Publisher D R)
      → Live p.response_map
      → IsNew id listener p.response_map
      → let res = wire.parse_response text in
        AsyncMap.has res.response_key p.response_map ≡ false
        → let (found, p₁) = await_response id listener res.response_key p in
          let (r, p₂) = go_on id res.response_key (handle_response wire text p₁) in
          (found ≡ none)
          × (r ≡ some (ok res))
          × (AsyncMap.has res.response_key p₂.response_map ≡ false)
  unfolding await_response go_on handle_response wait_get AsyncMap.delete AsyncMap.has
  await-respond id listener text p v new out =
      let res = wire.parse_response text in
      let key = res.response_key in
      let w : Waiter = record { listener = listener; key = key } in
      let (found, m₁) = wait_get is_object id listener key p.response_map in
      let waits : get id m₁.waiting ≡ some w =
        ground (arith, out, get-set id id w p.response_map.waiting, eq_iff id id) in
      let v₁ = wait_get-Live is_object id listener key p.response_map v new in
      let (wakes, other) = set-wakes id key res w m₁ v₁ waits in
      let (gone, returns) = wakes refl in
      let m₂ = (resume id (AsyncMap.set key res m₁)).1 in
      (
        ground (arith, out),
        ground (arith, out, returns),
        ground (arith, out, returns, has-delete key key m₂.map, eq_iff key key),
      )

  -- A response that came before is returned at once, and nothing is left of it.
  pub respond-await :
      (id : String) (listener : ℕ) (text : String) (p : Publisher D R)
      → let res = wire.parse_response text in
        let (found, p') =
          await_response id listener res.response_key (handle_response wire text p) in
        (found ≡ some (some res)) × (AsyncMap.has res.response_key p'.response_map ≡ false)
  unfolding await_response handle_response wait_get lookup AsyncMap.delete AsyncMap.has
  respond-await id listener text p =
      let res = wire.parse_response text in
      let key = res.response_key in
      let m = AsyncMap.set key res p.response_map in
      let there : get key m.map ≡ some res =
        ap (get key) (set-map key res p.response_map)
        ∙ ground (arith, get-set key key res p.response_map.map, eq_iff key key) in
      (ground (arith, there), ground (arith, there, has-delete key key m.map, eq_iff key key))

  -- Where the timer of a waiting call runs out, `awaitResponse` throws, and the call is gone; a response
  -- with a key that the map does not have then adds an entry, though the call is neither waiting nor
  -- resolved, and so does not delete it.
  pub give_up-respond :
      (id : String) (w : Waiter) (text : String) (p : Publisher D R)
      → Live p.response_map
      → get id p.response_map.waiting ≡ some w
      → let res = wire.parse_response text in
        AsyncMap.has res.response_key p.response_map ≡ false
        → let (r, p₁) = give_up id p in
          let p₂ = handle_response wire text p₁ in
          (r ≡ some (err async_map_timeout))
          × (size p₂.response_map ≡ suc (size p.response_map))
          × ((go_on id res.response_key p₂).0 ≡ none)
  unfolding give_up time_out handle_response go_on resume AsyncMap.has size
  give_up-respond id w text p v waits out =
      let res = wire.parse_response text in
      let key = res.response_key in
      let m₁ = (time_out id p.response_map).1 in
      let v₁ = time_out-Live id p.response_map v in
      let idle : get id m₁.waiting ≡ none =
        ground (arith, waits, get-delete id id p.response_map.waiting, eq_iff id id) in
      let unresolved : get id m₁.resolved ≡ none = ground (arith, waits, v.pending id w) in
      (
        ground (arith, waits),
        ground (arith, waits, out, set-map key res m₁, size-set key res m₁.map),
        ground (arith, waits, set-unresolved id key res m₁ v₁ idle unresolved),
      )

  pub await-respond_at :
      (id : String) (listener : ℕ) (text : String) (res : Response R) (p : Publisher D R)
      → wire.parse_response text ≡ res
      → Live p.response_map
      → IsNew id listener p.response_map
      → AsyncMap.has res.response_key p.response_map ≡ false
      → let (found, p₁) = await_response id listener res.response_key p in
        let (r, p₂) = go_on id res.response_key (handle_response wire text p₁) in
        (found ≡ none)
        × (r ≡ some (ok res))
        × (AsyncMap.has res.response_key p₂.response_map ≡ false)
  await-respond_at id listener text res p parsed v new out =
      subst
        (λ z.
          AsyncMap.has z.response_key p.response_map ≡ false
          → let (found, p₁) = await_response id listener z.response_key p in
            let (r, p₂) = go_on id z.response_key (handle_response wire text p₁) in
            (found ≡ none)
            × (r ≡ some (ok z))
            × (AsyncMap.has z.response_key p₂.response_map ≡ false))
        parsed (await-respond id listener text p v new) out

module _ {D R : Type 0} where
  -- What a call goes on with hangs on the map of responses only.
  pub go_on_eq :
      (id key : String) (p q : Publisher D R)
      → p.response_map ≡ q.response_map
      → ((go_on id key p).0 ≡ (go_on id key q).0)
        × ((go_on id key p).1.response_map ≡ (go_on id key q).1.response_map)
  unfolding go_on
  go_on_eq id key p q same = (
    ap (λ m. (resume id m).0) same,
    ap
        (λ m. elim (resume id m).0 [
          | none ↦ (resume id m).1
          | some r ↦ AsyncMap.delete key (resume id m).1
        ])
        same,
  )
