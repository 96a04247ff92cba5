-- ===== src/Publisher/History.antt =====
-- Histories of the memory publisher: calls of `publish`, and worker calls that settle, as they come.
use moirae.Base.{
  ℕ, ◌+◌, ◌≤◌, String, none, some, List, [], ◌∷◌, ◌++◌, ◌≡◌, refl, ◌∙◌, ap, inl, inr, arith, length,
}
use mathlib.Core.List.{append_assoc, append-nil}
use moirae.Message.{Message}
use moirae.Queue.{Queue, queue_size}
use moirae.Queue
use moirae.Queue.Fifo.{queue_size-length}
use moirae.Publisher.Defs.{idle, Publisher, Wire, publish, routed, settle, bootstrap}
use moirae.Publisher.Order.{WireLaws, IsWired, IsNewKey, Tracks, pending, publish-Tracks}
use moirae.Publisher.Drain.{load, settle-Tracks, settle_all, settle_all-delivers}

pub data Call (D R : Type 0) : Type 0 where
  -- with the key that the queue draws
  publishes : String → Message D → Call D R
  settles : R → Call D R

module _ {D R : Type 0} (wire : Wire D R) where
  unfoldable pub step : Call D R → Publisher D R → Publisher D R
  step (publishes uuid e) p = (publish wire uuid e p).1
  step (settles res) p = (settle wire res p).1

  unfoldable pub run : List (Call D R) → Publisher D R → Publisher D R
  run [] p = p
  run (c ∷ calls) p = run calls (step c p)

  -- The events of a history as they are sent.
  unfoldable pub published : List (Call D R) → Publisher D R → List (Message D)
  published [] p = []
  published (publishes uuid e ∷ calls) p = routed e p ∷ published calls (step (publishes uuid e) p)
  published (settles res ∷ calls) p = published calls (step (settles res) p)

  abbrev pub AreNew : List (Call D R) → Publisher D R → Type 0
  AreNew [] p = Unit
  AreNew (publishes uuid e ∷ calls) p = IsNewKey uuid p × AreNew calls (step (publishes uuid e) p)
  AreNew (settles res ∷ calls) p = AreNew calls (step (settles res) p)

  -- Calls that run, and texts that wait.
  unfoldable pub backlog : Publisher D R → ℕ
  backlog p = length p.running + (elim p.queue [ none ↦ 0 | some q ↦ queue_size q ])

  pub run-Tracks :
      (calls : List (Call D R)) (p : Publisher D R) (sent : List (Message D))
      → WireLaws wire
      → AreNew calls p
      → Tracks wire p sent
      → Tracks wire (run calls p) (sent ++ published calls p)
  unfolding run step published
  run-Tracks [] p sent laws new t = rw append-nil t
  run-Tracks (publishes uuid e ∷ calls) p sent laws new t =
      let (_, t') = publish-Tracks wire laws uuid e p sent new.0 t in
      rw (← append_assoc sent (routed e p ∷ []))
        (run-Tracks calls (publish wire uuid e p).1 (sent ++ routed e p ∷ []) laws new.1 t')
  run-Tracks (settles res ∷ calls) p sent laws new t =
      run-Tracks calls (settle wire res p).1 sent laws new (settle-Tracks wire res p sent t).1

  load-backlog :
      (p : Publisher D R) (sent : List (Message D)) (t : Tracks wire p sent)
      → load wire t ≡ backlog p
  unfolding backlog
  load-backlog p sent t = ground (arith, queue_size-length t.q t.cells t.rep, t.has_q)

  pub ready-Tracks :
      (p : Publisher D R)
      → IsWired wire p
      → p.running ≡ []
      → p.delivered ≡ []
      → Tracks wire (bootstrap p) []
  unfolding bootstrap Queue.empty
  ready-Tracks p w still none_yet = record {
    q = Queue.empty;
    cells = [];
    wired = w;
    has_q = refl;
    rep = (refl, refl);
    named = tt;
    flow = append-nil p.delivered ∙ none_yet;
    phase = inl (refl, still, refl);
  }

  module _ (laws : WireLaws wire) (p : Publisher D R) (wired : IsWired wire p)
      (quiet : p.running ≡ []) (unused : p.delivered ≡ []) where
    -- From the bootstrap of a publisher with one worker, that runs nothing and handed nothing over, and
    -- through any history of publications with new keys and of settling: at most one call runs at a
    -- time, and what was handed over is a prefix of what was published, in the same order.
    pub run_serial :
        (calls : List (Call D R))
        → AreNew calls (bootstrap p)
        → (length (run calls (bootstrap p)).running ≤ 1)
          × (waiting : List (Message D)) × ((run calls (bootstrap p)).delivered ++ waiting
              ≡ published calls (bootstrap p))
    run_serial calls new =
        let t = run-Tracks calls (bootstrap p) [] laws new (ready-Tracks p wired quiet unused) in
        (
          elim t.phase [
            | inl (_, still, _) ↦ omega (arith, ap length still)
            | inr (_, e, one) ↦ omega (arith, ap length one)
          ],
          pending wire t.cells,
          t.flow,
        )

    -- From the bootstrap of a publisher with one worker, that runs nothing and handed nothing over, and
    -- through any history of publications with new keys and of settling: once as many further calls
    -- have settled as run or wait then, the bus is idle and everything published was handed over, once
    -- and in order.
    pub run_delivers :
        (calls : List (Call D R)) (rs : List R)
        → AreNew calls (bootstrap p)
        → backlog (run calls (bootstrap p)) ≤ length rs
        → ((settle_all wire rs (run calls (bootstrap p))).status ≡ idle)
          × ((settle_all wire rs (run calls (bootstrap p))).delivered
              ≡ published calls (bootstrap p))
    run_delivers calls rs new h =
        let t = run-Tracks calls (bootstrap p) [] laws new (ready-Tracks p wired quiet unused) in
        settle_all-delivers wire rs (run calls (bootstrap p)) (published calls (bootstrap p)) t
          (omega (arith, load-backlog (run calls (bootstrap p)) (published calls (bootstrap p)) t))
