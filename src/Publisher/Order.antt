-- ===== src/Publisher/Order.antt =====
-- The memory publisher with one worker hands over what is published, one at a time and in order.
use mathlib.Core.List.{append_assoc, append-nil, map-append}
use moirae.Base.{
  ℕ, String, ◌===◌, ◌==◌, false, some, List, [], ◌∷◌, ◌++◌, map, select, ◌≡◌, refl, ◌∙◌, ap, sym,
  ◌⊎◌, inl, inr, arith, All, All-append,
}
use moirae.Base.Dict.{has}
use moirae.Failure.{ok}
use moirae.Message.{Message}
use moirae.Queue.{Queue, enqueue, dequeue, queue_size}
use moirae.Queue.Cells.{Represents, entries}
use moirae.Queue.Fifo.{enqueue-Represents, dequeue-Represents, dequeue_empty, queue_size-length}
use moirae.Observable.Emitter.{member}
use moirae.Observable.Distributor
use moirae.Observable.Distributor.{listener_count}
use moirae.Publisher.Defs.{idle, active, Publisher, Wire, advance_bus, publish, routed, with_queue}

-- One more thing behind a list that is in two parts.
append_idle :
    {A : Type 0} (ds sent : List A) {x y : A}
    → ds ++ [] ≡ sent
    → x ≡ y
    → (ds ++ x ∷ []) ++ [] ≡ sent ++ y ∷ []
append_idle ds sent {x} e f =
    append-nil (ds ++ x ∷ [])
    ∙ ap (λ l. l ++ x ∷ []) (sym (append-nil ds) ∙ e)
    ∙ ap (λ z. sent ++ z ∷ []) f

append_busy :
    {A : Type 0} (ds ps sent : List A) {ps' : List A} (x : A)
    → ds ++ ps ≡ sent
    → ps' ≡ ps ++ x ∷ []
    → ds ++ ps' ≡ sent ++ x ∷ []
append_busy ds ps sent x e f =
    ap (◌++◌ ds) f ∙ sym (append_assoc ds ps (x ∷ [])) ∙ ap (λ l. l ++ x ∷ []) e

-- The key that the queue draws is not empty and not in use.
abbrev pub IsNewKey : {D R : Type 0} → String → Publisher D R → Type 0
IsNewKey uuid p =
    ((uuid === "") ≡ false) × ((q : Queue String) → p.queue ≡ some q → has uuid q.map ≡ false)

module _ {D R : Type 0} (wire : Wire D R) where
  -- An event comes back from the text that it is sent as, and no event is sent as the empty text.
  pub record WireLaws : Type 0 where
    pub parse-serialize : (e : Message D) → wire.parse_event (wire.serialize_event e) ≡ e
    pub serialize_ne_empty : (e : Message D) → (wire.serialize_event e === "") ≡ false

  -- The publisher has one worker.
  abbrev pub IsWired : Publisher D R → Type 0
  IsWired p =
      ((listener_count p.distributor == 0) ≡ false)
      × (h : ℕ) × (select (λ g. member g p.workers) (Distributor.publish p.distributor p.ee)
          ≡ h ∷ [])

  abbrev pub pending : List (String × String) → List (Message D)
  pending = map (λ c. wire.parse_event c.1)

  abbrev pub Named : List (String × String) → Type 0
  Named = All (λ c. (c.1 === "") ≡ false)

  -- The publisher after the oldest waiting text is handed over.
  abbrev pub handed : Publisher D R → Queue String → String → Publisher D R
  handed p q text = record p {
    queue = some q;
    status = active;
    running = wire.parse_event text ∷ [];
    delivered = p.delivered ++ wire.parse_event text ∷ [];
  }

  pub advance_bus-cons :
      (p : Publisher D R) (q : Queue String) (c : String × String) (cs : List (String × String))
      → IsWired p
      → p.status ≡ idle
      → p.running ≡ []
      → p.queue ≡ some q
      → Represents q (c ∷ cs)
      → (c.1 === "") ≡ false
      → advance_bus wire p ≡ (ok tt, handed p (dequeue q).1 c.1)
  unfolding advance_bus
  advance_bus-cons p q c cs w st run has_q rep named = ground (arith, dequeue-Represents q c cs)

  pub advance_bus-nil :
      (p : Publisher D R) (q : Queue String)
      → p.queue ≡ some q
      → Represents q []
      → advance_bus wire p ≡ (ok tt, p)
  unfolding advance_bus
  advance_bus-nil p q has_q rep = ground (arith, dequeue_empty q rep)

  -- `sent` is what was published so far: what was handed over and what waits, in order. The bus is idle
  -- with nothing waiting and no call running, or active with one call running.
  pub record Tracks (p : Publisher D R) (sent : List (Message D)) : Type 0 where
    pub q : Queue String
    pub cells : List (String × String)
    pub wired : IsWired p
    pub has_q : p.queue ≡ some q
    pub rep : Represents q cells
    pub named : Named cells
    pub flow : p.delivered ++ pending cells ≡ sent
    pub phase :
        ((p.status ≡ idle) × (p.running ≡ []) × (cells ≡ []))
        ⊎ ((p.status ≡ active) × (e : Message D) × (p.running ≡ e ∷ []))

  publish-active :
      (uuid : String) (e : Message D) (p : Publisher D R) (q : Queue String)
      → p.status ≡ active
      → p.queue ≡ some q
      → (enqueue uuid (wire.serialize_event (routed e p)) q).0 ≡ ok tt
      → publish wire uuid e p
        ≡ (ok tt, with_queue (enqueue uuid (wire.serialize_event (routed e p)) q).1 p)
  unfolding publish advance_bus
  publish-active uuid e p q st has_q ran = ground arith

  publish-idle :
      (uuid : String) (e : Message D) (p : Publisher D R) (q : Queue String)
      → p.queue ≡ some q
      → (enqueue uuid (wire.serialize_event (routed e p)) q).0 ≡ ok tt
      → queue_size (enqueue uuid (wire.serialize_event (routed e p)) q).1 ≡ 1
      → publish wire uuid e p
        ≡ advance_bus wire (with_queue (enqueue uuid (wire.serialize_event (routed e p)) q).1 p)
  unfolding publish advance_bus
  publish-idle uuid e p q has_q ran one = ground arith

  pub has-entries :
      (uuid : String) (q : Queue String) (cs : List (String × String))
      → Represents q cs
      → has uuid q.map ≡ false
      → has uuid (entries cs) ≡ false
  has-entries uuid q [] r h = refl
  has-entries uuid q (c ∷ cs) r h = ap (λ m. has uuid m) (sym r.0) ∙ h

  module _ (laws : WireLaws) where
    -- A publish never throws, and what is published joins what was.
    pub publish-Tracks :
        (uuid : String) (e : Message D) (p : Publisher D R) (sent : List (Message D))
        → IsNewKey uuid p
        → Tracks p sent
        → ((publish wire uuid e p).0 ≡ ok tt)
          × Tracks (publish wire uuid e p).1 (sent ++ routed e p ∷ [])
    publish-Tracks uuid e p sent new t =
        let text = wire.serialize_event (routed e p) in
        let (ran, rep') =
          enqueue-Represents uuid text t.q t.cells t.rep new.0
            (has-entries uuid t.q t.cells t.rep (new.1 t.q t.has_q)) in
        let q' = (enqueue uuid text t.q).1 in
        elim t.phase [
          | inl (st, run, none_waits) ↦
              let rep₁ : Represents q' ((uuid, text) ∷ []) = rw none_waits at rep' in
              rw
                (
                  publish-idle uuid e p t.q t.has_q ran
                      (queue_size-length q' ((uuid, text) ∷ []) rep₁),
                  advance_bus-cons (with_queue q' p) q' (uuid, text) [] t.wired st run refl rep₁
                      (laws.serialize_ne_empty (routed e p)),
                )
                (
                  refl,
                  record {
                    q = (dequeue q').1;
                    cells = [];
                    wired = t.wired;
                    has_q = refl;
                    rep = (dequeue-Represents q' (uuid, text) [] rep₁).1;
                    named = tt;
                    flow =
                        append_idle p.delivered sent (rw none_waits at t.flow)
                          (laws.parse-serialize (routed e p));
                    phase = inr (refl, wire.parse_event text, refl);
                  },
                )
          | inr (st, d, run) ↦ rw (publish-active uuid e p t.q st t.has_q ran) (
            refl,
            record {
              q = q';
              cells = t.cells ++ (uuid, text) ∷ [];
              wired = t.wired;
              has_q = refl;
              rep = rep';
              named =
                  All-append (λ c. (c.1 === "") ≡ false) t.cells ((uuid, text) ∷ []) t.named
                    (laws.serialize_ne_empty (routed e p), tt);
              flow = append_busy p.delivered (pending t.cells) sent (routed e p) t.flow (
                  map-append (λ c. wire.parse_event c.1) t.cells ((uuid, text) ∷ [])
                  ∙ ap (λ z. pending t.cells ++ z ∷ []) (laws.parse-serialize (routed e p)));
              phase = inr (st, d, run);
            },
          )
        ]

    -- A publish on a quiet bus hands the event over at once.
    pub publish-quiet :
        (uuid : String) (e : Message D) (p : Publisher D R) (sent : List (Message D))
        → IsNewKey uuid p
        → (t : Tracks p sent) → p.status ≡ idle
        → p.running ≡ []
        → t.cells ≡ []
        → (q : Queue String) × (publish wire uuid e p
            ≡ (ok tt, handed p q (wire.serialize_event (routed e p))))
          × Represents q []
    publish-quiet uuid e p sent new t st run none_waits =
        let text = wire.serialize_event (routed e p) in
        let (ran, rep') =
          enqueue-Represents uuid text t.q t.cells t.rep new.0
            (has-entries uuid t.q t.cells t.rep (new.1 t.q t.has_q)) in
        let q' = (enqueue uuid text t.q).1 in
        let rep₁ : Represents q' ((uuid, text) ∷ []) = rw none_waits at rep' in
        (
          (dequeue q').1,
          publish-idle uuid e p t.q t.has_q ran (queue_size-length q' ((uuid, text) ∷ []) rep₁)
              ∙ advance_bus-cons (with_queue q' p) q' (uuid, text) [] t.wired st run refl rep₁
                  (laws.serialize_ne_empty (routed e p)),
          (dequeue-Represents q' (uuid, text) [] rep₁).1,
        )
