-- ===== src/Publisher/Drain.antt =====
-- What a settled call of the one worker sets off, and that the bus hands over everything in the end.
use mathlib.Core.List.{append_assoc, append-nil}
use moirae.Base.{
  ℕ, ◌+◌, ◌-◌, ◌≤◌, String, some, List, [], ◌∷◌, ◌++◌, ◌≡◌, refl, ◌∙◌, ap, sym, false, ◌===◌, inl,
  inr, arith, length,
}
use moirae.AsyncMap.{AsyncMap}
use moirae.Failure.{ok}
use moirae.Message.{Message}
use moirae.Queue.{Queue, dequeue}
use moirae.Queue.Cells.{Represents}
use moirae.Queue.Fifo.{dequeue-Represents}
use moirae.Publisher.Defs.{
  idle, Publisher, Wire, Response, advance_bus, settle, respond, handle_response,
}
use moirae.Publisher.Order.{IsWired, Tracks, pending, Named, advance_bus-cons, advance_bus-nil}

module _ {D R : Type 0} (wire : Wire D R) where
  -- Calls that run or wait.
  abbrev pub load : {p : Publisher D R} {sent : List (Message D)} → Tracks wire p sent → ℕ
  load {p} t = length p.running + length t.cells

  settled : Message D → R → List (Message D) → Publisher D R → Publisher D R
  unfolding respond
  settled event res rest p = record (respond wire event res (record p { running = rest })) {
    status = idle;
  }

  settle-cons :
      (res : R) (p : Publisher D R) (e : Message D)
      → p.running ≡ e ∷ []
      → settle wire res p ≡ advance_bus wire (settled e res [] p)
  unfolding settle settled respond
  settle-cons res p e run = ground arith

  -- A response changes nothing of the bus.
  settled-eq :
      (e : Message D) (res : R) (p : Publisher D R)
      → (m : AsyncMap (Response R)) × (settled e res [] p
          ≡ record p { running = []; status = idle; response_map = m })
  unfolding settled respond
  settled-eq e res p = ((respond wire e res p).response_map, ground arith)

  settle-nil : (res : R) (p : Publisher D R) → p.running ≡ [] → settle wire res p ≡ (ok tt, p)
  unfolding settle
  settle-nil res p run = ground arith

  -- An idle bus hands over the oldest waiting event, if there is one.
  advance_bus-Tracks :
      (p : Publisher D R) (q : Queue String) (cells : List (String × String))
      (sent : List (Message D))
      → IsWired wire p
      → p.status ≡ idle
      → p.running ≡ []
      → p.queue ≡ some q
      → Represents q cells
      → Named wire cells
      → p.delivered ++ pending wire cells ≡ sent
      → ((advance_bus wire p).0 ≡ ok tt)
        × (t : Tracks wire (advance_bus wire p).1 sent) × (load t ≡ length cells)
  advance_bus-Tracks p q [] sent w st run has_q rep named flow =
      rw (advance_bus-nil wire p q has_q rep) (
        refl,
        record {
          q = q;
          cells = [];
          wired = w;
          has_q = has_q;
          rep = rep;
          named = tt;
          flow = flow;
          phase = inl (st, run, refl);
        },
        omega (arith, ap length run),
      )
  advance_bus-Tracks p q (c ∷ cs) sent w st run has_q rep named flow =
      rw (advance_bus-cons wire p q c cs w st run has_q rep named.0) (
        refl,
        record {
          q = (dequeue q).1;
          cells = cs;
          wired = w;
          has_q = refl;
          rep = (dequeue-Represents q c cs rep).1;
          named = named.1;
          flow = append_assoc p.delivered (wire.parse_event c.1 ∷ []) (pending wire cs) ∙ flow;
          phase = inr (refl, wire.parse_event c.1, refl);
        },
        omega arith,
      )

  pub settle-Tracks :
      (res : R) (p : Publisher D R) (sent : List (Message D)) (t : Tracks wire p sent)
      → ((settle wire res p).0 ≡ ok tt)
        × (t' : Tracks wire (settle wire res p).1 sent) × (load t' ≡ load t - 1)
  settle-Tracks res p sent t = elim t.phase [
    | inl (st, run, none_waits) ↦
        rw (settle-nil res p run) (refl, t, omega (arith, ap length run, ap length none_waits))
    | inr (st, e, run) ↦
        let (m, eq) = settled-eq e res p in
        let p₁ : Publisher D R = record p { running = []; status = idle; response_map = m } in
        rw (settle-cons res p e run, eq)
          (let (r, t', l) =
              advance_bus-Tracks p₁ t.q t.cells sent t.wired refl refl t.has_q t.rep t.named
                t.flow in
            (r, t', omega (arith, l, ap length run)))
  ]

  unfoldable pub settle_all : List R → Publisher D R → Publisher D R
  settle_all [] p = p
  settle_all (res ∷ rs) p = settle_all rs (settle wire res p).1

  unload :
      (rs : List R) (p : Publisher D R) (sent : List (Message D)) (t : Tracks wire p sent)
      → load t ≤ length rs
      → (t' : Tracks wire (settle_all rs p) sent) × (load t' ≡ 0)
  unfolding settle_all
  unload [] p sent t h = (t, omega arith)
  unload (res ∷ rs) p sent t h =
      let (_, t', l) = settle-Tracks res p sent t in
      unload rs (settle wire res p).1 sent t' (omega arith)

  -- When as many calls have settled as run or wait, the bus is idle and has handed over exactly what
  -- was published, in the order of publication.
  pub settle_all-delivers :
      (rs : List R) (p : Publisher D R) (sent : List (Message D)) (t : Tracks wire p sent)
      → load t ≤ length rs
      → ((settle_all rs p).status ≡ idle) × ((settle_all rs p).delivered ≡ sent)
  settle_all-delivers rs p sent t h =
      let (t', l) = unload rs p sent t h in
      elim t'.phase [
        | inl (st, run, e) ↦ (st, sym (append-nil (settle_all rs p).delivered) ∙ rw e at t'.flow)
        | inr (st, e, run) ↦ absurd (omega (arith, ap length run))
      ]

  -- The last running call answers an event that asks for a response: the response is handled, and that is
  -- all that happens to the map of responses.
  pub settle-last :
      (res : R) (p : Publisher D R) (e : Message D) (key node : String) (q : Queue String)
      → p.running ≡ e ∷ []
      → p.queue ≡ some q
      → Represents q []
      → e.disable_response ≡ false
      → e.response_key ≡ some key
      → e.routing_key ≡ some node
      → (key === "") ≡ false
      → (node === "") ≡ false
      → (settle wire res p).1.response_map
        ≡ (handle_response wire
            (wire.serialize_response
              (record { payload = res; response_key = key; routing_key = node }))
            p).response_map
  unfolding settled respond handle_response
  settle-last res p e key node q run has_q rep wanted has_key has_node named named' =
      let (m, eq) = settled-eq e res p in
      rw
        (
          settle-cons res p e run,
          advance_bus-nil wire (settled e res [] p) q (ap (λ x. x.queue) eq ∙ has_q) rep,
        )
        (ground (arith, wanted, has_key, has_node, named, named'))
