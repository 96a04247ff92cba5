-- ===== src/Publisher/Stall.antt =====
-- Two ways for the bus of the memory publisher to stop for good: `handlePublish` advances it only when
-- the queue holds one text, and `subscribe` acknowledges only a call that returned.
use moirae.Base.{
  ℕ, ◌≤◌, String, ◌===◌, ◌==◌, true, false, some, List, [], ◌∷◌, ◌++◌, ◌≡◌, refl, ◌∙◌, ap, ◌⊎◌, inl,
  inr, arith, length, length-append,
}
use moirae.Failure.{ok}
use moirae.Message.{Message}
use moirae.Queue.{Queue, enqueue, queue_size}
use moirae.Queue
use moirae.Queue.Cells.{Represents}
use moirae.Queue.Fifo.{enqueue-Represents, queue_size-length}
use moirae.Observable.Distributor.{listener_count}
use moirae.Publisher.Defs.{
  idle, active, Publisher, Wire, publish, routed, settle, bootstrap, subscribe, reject, advance_bus,
  with_queue,
}
use moirae.Publisher.Order.{IsNewKey, IsWired, WireLaws, Tracks, has-entries}
use moirae.Publisher.History.{
  Call, publishes, settles, step, run, published, AreNew, run-Tracks, ready-Tracks,
}

module _ {D R : Type 0} where
  -- No call runs that could settle, and the next publish does not advance the bus.
  pub record Stalled (p : Publisher D R) : Type 0 where
    pub q : Queue String
    pub cells : List (String × String)
    pub has_q : p.queue ≡ some q
    pub rep : Represents q cells
    pub still : p.running ≡ []
    pub stuck : (p.status ≡ active) ⊎ ((p.status ≡ idle) × (1 ≤ length cells))

module _ {D R : Type 0} (wire : Wire D R) where
  publish_stuck :
      (uuid : String) (e : Message D) (p : Publisher D R) (q : Queue String)
      → p.queue ≡ some q
      → (enqueue uuid (wire.serialize_event (routed e p)) q).0 ≡ ok tt
      → (p.status ≡ active)
        ⊎ (2 ≤ queue_size (enqueue uuid (wire.serialize_event (routed e p)) q).1)
      → publish wire uuid e p
        ≡ (ok tt, with_queue (enqueue uuid (wire.serialize_event (routed e p)) q).1 p)
  unfolding publish advance_bus
  publish_stuck uuid e p q has_q ran (inl st) = ground arith
  publish_stuck uuid e p q has_q ran (inr many) = ground arith

  publish-Stalled :
      (uuid : String) (e : Message D) (p : Publisher D R)
      → IsNewKey uuid p
      → Stalled p
      → Stalled (publish wire uuid e p).1 × ((publish wire uuid e p).1.delivered ≡ p.delivered)
  publish-Stalled uuid e p new s =
      let text = wire.serialize_event (routed e p) in
      let (ran, rep') =
        enqueue-Represents uuid text s.q s.cells s.rep new.0
          (has-entries wire uuid s.q s.cells s.rep (new.1 s.q s.has_q)) in
      let q' = (enqueue uuid text s.q).1 in
      let cells' = s.cells ++ (uuid, text) ∷ [] in
      let more = length-append s.cells ((uuid, text) ∷ []) in
      let size = queue_size-length q' cells' rep' in
      let keep : (p.status ≡ active) ⊎ ((p.status ≡ idle) × (1 ≤ length cells')) = elim s.stuck [
        | inl st ↦ inl st
        | inr (st, _) ↦ inr (st, omega (arith, more))
      ] in
      rw
        (publish_stuck uuid e p s.q s.has_q ran
          (elim s.stuck [ inl st ↦ inl st | inr (_, some_wait) ↦ inr (omega (arith, more, size)) ]))
        (
          record {
            q = q';
            cells = cells';
            has_q = refl;
            rep = rep';
            still = s.still;
            stuck = keep;
          },
          refl,
        )

  settle-Stalled : (res : R) (p : Publisher D R) → Stalled p → (settle wire res p).1 ≡ p
  unfolding settle
  settle-Stalled res p s = ground (arith, s.still)

  run-Stalled :
      (calls : List (Call D R)) (p : Publisher D R)
      → Stalled p
      → AreNew wire calls p
      → (run wire calls p).delivered ≡ p.delivered
  unfolding run step
  run-Stalled [] p s new = refl
  run-Stalled (publishes uuid e ∷ calls) p s new =
      let (s', same) = publish-Stalled uuid e p new.0 s in
      run-Stalled calls (publish wire uuid e p).1 s' new.1 ∙ same
  run-Stalled (settles res ∷ calls) p s new =
      let t : Stalled (settle wire res p).1 = rw (settle-Stalled res p s) s in
      run-Stalled calls (settle wire res p).1 t new ∙ ap (λ z. z.delivered) (settle-Stalled res p s)

  publish_deaf :
      (uuid : String) (e : Message D) (p : Publisher D R)
      → (listener_count p.distributor == 0) ≡ true
      → (enqueue uuid (wire.serialize_event (routed e (bootstrap p))) Queue.empty).0 ≡ ok tt
      → publish wire uuid e (bootstrap p) ≡ (
        ok tt,
        with_queue
            (enqueue uuid (wire.serialize_event (routed e (bootstrap p))) Queue.empty).1
            (bootstrap p),
      )
  unfolding publish advance_bus bootstrap
  publish_deaf uuid e p deaf ran = ground arith

  subscribe-Stalled :
      (key : String) (h : ℕ) (p : Publisher D R)
      → Stalled p
      → Stalled (subscribe key h p) × ((subscribe key h p).delivered ≡ p.delivered)
  unfolding subscribe
  subscribe-Stalled key h p s = (
    record {
      q = s.q;
      cells = s.cells;
      has_q = s.has_q;
      rep = s.rep;
      still = s.still;
      stuck = s.stuck;
    },
    refl,
  )

  deaf-Stalled :
      (uuid : String) (e : Message D) (p : Publisher D R)
      → (uuid === "") ≡ false
      → p.running ≡ []
      → (listener_count p.distributor == 0) ≡ true
      → Stalled (publish wire uuid e (bootstrap p)).1
        × ((publish wire uuid e (bootstrap p)).1.delivered ≡ p.delivered)
  unfolding bootstrap Queue.empty
  deaf-Stalled uuid e p named still deaf =
      let text = wire.serialize_event (routed e (bootstrap p)) in
      let (ran, rep) = enqueue-Represents uuid text Queue.empty [] (refl, refl) named refl in
      rw (publish_deaf uuid e p deaf ran) (
        record {
          q = (enqueue uuid text Queue.empty).1;
          cells = (uuid, text) ∷ [];
          has_q = refl;
          rep = rep;
          still = still;
          stuck = inr (refl, omega arith);
        },
        refl,
      )

  -- An event published while the bootstrapped publisher has no listener and runs nothing stops the bus
  -- for good: when a worker subscribes then, no later history of publications with new keys and of
  -- settling hands anything over.
  pub publish_deaf_stalls :
      (uuid key : String) (e : Message D) (h : ℕ) (p : Publisher D R) (calls : List (Call D R))
      → (uuid === "") ≡ false
      → p.running ≡ []
      → (listener_count p.distributor == 0) ≡ true
      → AreNew wire calls (subscribe key h (publish wire uuid e (bootstrap p)).1)
      → (run wire calls (subscribe key h (publish wire uuid e (bootstrap p)).1)).delivered
        ≡ p.delivered
  publish_deaf_stalls uuid key e h p calls named still deaf new =
      let (s, same) = deaf-Stalled uuid e p named still deaf in
      let (s', same') = subscribe-Stalled key h (publish wire uuid e (bootstrap p)).1 s in
      run-Stalled calls (subscribe key h (publish wire uuid e (bootstrap p)).1) s' new
      ∙ same'
      ∙ same

  reject-eq :
      (p : Publisher D R) (e : Message D)
      → p.running ≡ e ∷ []
      → reject p ≡ record p { running = [] }
  unfolding reject
  reject-eq p e one = ground arith

  reject-Stalled :
      (p : Publisher D R) (sent : List (Message D)) (e : Message D)
      → Tracks wire p sent
      → p.running ≡ e ∷ []
      → Stalled (reject p) × ((reject p).delivered ≡ p.delivered)
  reject-Stalled p sent e t one = rw (reject-eq p e one) (
    record {
      q = t.q;
      cells = t.cells;
      has_q = t.has_q;
      rep = t.rep;
      still = refl;
      stuck = elim t.phase [
        | inl (_, none_runs, _) ↦ absurd (omega (arith, ap length none_runs, ap length one))
        | inr (st, _, _) ↦ inl st
      ];
    },
    refl,
  )

  -- From the bootstrap of a publisher with one worker, that runs nothing and handed nothing over, and
  -- through any history of publications with new keys and of settling: when the running call throws,
  -- the bus stops for good, no later history hands anything over.
  pub reject_stalls :
      (before after : List (Call D R)) (p : Publisher D R) (e : Message D)
      → WireLaws wire
      → IsWired wire p
      → p.running ≡ []
      → p.delivered ≡ []
      → AreNew wire before (bootstrap p)
      → (run wire before (bootstrap p)).running ≡ e ∷ []
      → AreNew wire after (reject (run wire before (bootstrap p)))
      → (run wire after (reject (run wire before (bootstrap p)))).delivered
        ≡ (run wire before (bootstrap p)).delivered
  reject_stalls before after p e laws wired quiet unused new one new' =
      let t =
        run-Tracks wire before (bootstrap p) [] laws new (ready-Tracks wire p wired quiet unused) in
      let p' = run wire before (bootstrap p) in
      let (s, same) = reject-Stalled p' (published wire before (bootstrap p)) e t one in
      run-Stalled after (reject p') s new' ∙ same
