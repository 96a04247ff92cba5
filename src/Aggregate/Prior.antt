-- ===== src/Aggregate/Prior.antt =====
-- `getAggregatePriorTo` of aggregate-root.class.ts. `Object.create(this, …)` makes an object whose fields
-- are the aggregate's until they are assigned: the copy starts from the present fields, and
-- `_eventHistory`, which is only pushed to, is one array for both. A handler that changes an array of the
-- fields in place changes it for the aggregate too, so that nothing is said of the aggregate's fields
-- afterwards. The loop takes fuel.
use moirae.Base.{
  ℕ, suc, zero, ◌+◌, ◌<◌, String, ◌===◌, true, false, Option, none, some, List, [], ◌∷◌, ◌++◌, map,
  length, ◌≡◌, refl, inl, inr, arith, length-append, ◌∙◌, sym, ap, All, All-append, All-get_elem?,
  get_elem?, drop, drop-append, get_elem?-append,
}
use mathlib.Core.List.{append-nil, append_assoc}
use moirae.Failure.{Result, Result-cases, ok, err, type_error}
use moirae.Message.{Message}
use moirae.Aggregate.Defs.{Class, Aggregate, apply, uncommitted_event_history}
use moirae.Aggregate.History.{handle, placed, extended, apply-outcome}
use moirae.Aggregate.Replay.{replay}
use moirae.Aggregate.Commit.{place, IsMarked, start, uncommitted-drop}

All-both :
    {A : Type 0} (P Q : A → Type 0) (xs : List A) → All P xs → All Q xs → All (λ x. P x × Q x) xs
All-both P Q [] p q = tt
All-both P Q (x ∷ xs) p q = ((p.0, q.0), All-both P Q xs p.1 q.1)

module _ {S D : Type 0} (cls : Class S D) where
  -- The loop on the copy `c`. A read past the end throws before `idx < length` is tested.
  unfoldable pub prior_loop :
      ℕ → String → ℕ → Aggregate S D → Option (Result (Unit {0}) × Aggregate S D)
  prior_loop zero uuid idx c = none
  prior_loop (suc fuel) uuid idx c = elim (get_elem? c.event_history idx) [
    | none ↦ some (err type_error, c)
    | some e ↦ elim (e.uuid === uuid) [
      | true ↦ some (ok tt, c)
      | false ↦ elim (apply cls e true c).0 [
        | ok _ ↦ prior_loop fuel uuid (idx + 1) (apply cls e true c).1
        | err x ↦ some (err x, (apply cls e true c).1)
      ]
    ]
  ]

  -- The copy or what the loop threw, and the one history of the copy and the aggregate.
  unfoldable pub get_aggregate_prior_to :
      ℕ → Message D → Aggregate S D → Option (Result (Aggregate S D) × List (Message D))
  unfolding prior_loop
  get_aggregate_prior_to fuel event a = elim (prior_loop fuel event.uuid 0 a) [
    | none ↦ none
    | some (ok _, c) ↦ some (ok c, c.event_history)
    | some (err x, c) ↦ some (err x, c.event_history)
  ]

  prior_loop-step :
      (uuid : String) (idx fuel : ℕ) (d : Message D) (c : Aggregate S D) (t : S)
      → get_elem? c.event_history idx ≡ some d
      → (d.uuid === uuid) ≡ false
      → handle cls d c.state ≡ ok t
      → prior_loop (suc fuel) uuid idx c ≡ prior_loop fuel uuid (idx + 1) (extended cls c d true t)
  unfolding prior_loop
  prior_loop-step uuid idx fuel d c t at other h = ground (arith, apply-outcome cls c d true)

  -- Over events with another uuid, the copy takes them one by one, and they join the one history.
  prior_loop-eq :
      (todo done rest : List (Message D)) (e : Message D) (uuid : String) (fuel : ℕ)
      (c : Aggregate S D) (s : S)
      → c.event_history ≡ done ++ (todo ++ e ∷ rest)
      → (e.uuid === uuid) ≡ true
      → All (λ d. (d.uuid === uuid) ≡ false) todo
      → replay cls todo c.state ≡ ok s
      → length todo < fuel
      → (c' : Aggregate S D) × (prior_loop fuel uuid (length done) c ≡ some (ok tt, c'))
        × (c'.state ≡ s)
        × (c'.event_history ≡ c.event_history ++ map (place cls c.stream_id) todo)
  unfolding prior_loop replay
  prior_loop-eq [] done rest e uuid zero c s h found others r f = absurd (omega arith)
  prior_loop-eq (d ∷ todo) done rest e uuid zero c s h found others r f = absurd (omega arith)
  prior_loop-eq [] done rest e uuid (suc fuel) c s h found others r f = (
    c,
    ground (arith, get_elem?-append done e rest),
    ground arith,
    sym (append-nil c.event_history),
  )
  prior_loop-eq (d ∷ todo) done rest e uuid (suc fuel) c s h found others r f =
      elim (Result-cases (handle cls d c.state)) [
        | inl (t, q) ↦
            let next = extended cls c d true t in
            let (c', ran, st, hist) =
              prior_loop-eq todo (done ++ d ∷ []) (rest ++ placed cls c d ∷ []) e uuid fuel next s
                (rw h (simp append_assoc)) found others.1 (ground arith) (omega arith) in
            (
              c',
              prior_loop-step uuid (length done) fuel d c t
                    (rw h (get_elem?-append done d (todo ++ e ∷ rest))) others.0 q
                  ∙ ap (λ i. prior_loop fuel uuid i next)
                      (omega (arith, length-append done (d ∷ [])))
                  ∙ ran,
              st,
              hist
                  ∙ append_assoc c.event_history (placed cls c d ∷ [])
                      (map (place cls c.stream_id) todo),
            )
        | inr (x, q) ↦ absurd (ground arith)
      ]

  -- `getAggregatePriorTo` on an event of the history, where the events before it have other uuids and
  -- their handlers do not throw on the present fields, and with the mark of the last committed event
  -- within the history. It ends, but its copy is the present aggregate with the earlier events handled
  -- once more, and those events are appended to the history of the aggregate itself, where the next
  -- commit takes them for new ones, whatever the handlers did in place to its fields.
  pub get_aggregate_prior_to_appends :
      (a : Aggregate S D) (before after : List (Message D)) (e event : Message D) (s : S) (fuel : ℕ)
      → a.event_history ≡ before ++ e ∷ after
      → (e.uuid === event.uuid) ≡ true
      → All (λ d. (d.uuid === event.uuid) ≡ false) before
      → replay cls before a.state ≡ ok s
      → length before < fuel
      → IsMarked a
      → (copy : Aggregate S D) × (history : List (Message D)) × (get_aggregate_prior_to fuel event a
          ≡ some (ok copy, history))
        × (copy.state ≡ s)
        × (history ≡ a.event_history ++ map (place cls a.stream_id) before)
        × ((fields : S)
            → uncommitted_event_history (record a { state = fields; event_history = history })
              ≡ uncommitted_event_history a ++ map (place cls a.stream_id) before)
  unfolding get_aggregate_prior_to
  get_aggregate_prior_to_appends a before after e event s fuel h found others r f m =
      let (c, ran, st, hist) =
        prior_loop-eq before [] after e event.uuid fuel a s h found others r f in
      let again = map (place cls a.stream_id) before in
      (
        c,
        c.event_history,
        ground arith,
        st,
        hist,
        λ fields.
            uncommitted-drop (record a { state = fields; event_history = c.event_history })
            ∙ ap (drop (start a)) hist
            ∙ drop-append (start a) a.event_history again m
            ∙ ap (λ l. l ++ again) (sym (uncommitted-drop a)),
      )

  -- The event is handled without a throw whatever the fields are, also when `apply` fills in its stream.
  abbrev pub IsHandled : Message D → Type 0
  IsHandled e =
      (id : Option String) (s : S) → (t : S) × (handle cls (record e { stream_id = id }) s ≡ ok t)

  -- With events but none of them the one sought, it never ends: it appends as fast as it walks.
  prior_loop-none :
      (uuid : String) (fuel idx : ℕ) (c : Aggregate S D)
      → All IsHandled c.event_history
      → idx < length c.event_history
      → All (λ d. (d.uuid === uuid) ≡ false) c.event_history
      → prior_loop fuel uuid idx c ≡ none
  unfolding prior_loop
  prior_loop-none uuid zero idx c handled h others = refl
  prior_loop-none uuid (suc fuel) idx c handled h others =
      let (d, at, both) =
        All-get_elem? (λ d. ((d.uuid === uuid) ≡ false) × IsHandled d) c.event_history idx h
          (All-both (λ d. (d.uuid === uuid) ≡ false) IsHandled c.event_history others handled) in
      let (t, q) = both.1 d.stream_id c.state in
      prior_loop-step uuid idx fuel d c t at both.0 q
      ∙ prior_loop-none uuid fuel (idx + 1) (extended cls c d true t)
          (All-append IsHandled c.event_history (placed cls c d ∷ []) handled
            ((λ id s. both.1 id s), tt))
          (omega (arith, length-append c.event_history (placed cls c d ∷ [])))
          (All-append (λ d. (d.uuid === uuid) ≡ false) c.event_history (placed cls c d ∷ []) others
            (both.0, tt))

  -- On an event that a non-empty history does not hold, `getAggregatePriorTo` does not end, where the
  -- handlers of the events in that history do not throw.
  pub get_aggregate_prior_to_diverges :
      (a : Aggregate S D) (event : Message D) (fuel : ℕ)
      → All IsHandled a.event_history
      → 0 < length a.event_history
      → All (λ d. (d.uuid === event.uuid) ≡ false) a.event_history
      → get_aggregate_prior_to fuel event a ≡ none
  unfolding get_aggregate_prior_to
  get_aggregate_prior_to_diverges a event fuel handled h others =
      ground (arith, prior_loop-none event.uuid fuel 0 a handled h others)
