-- ===== src/Demo/WebSocket.antt =====
-- demo/gateway/src/moirae-ws.gateway.ts. The subject of rxjs is the list of its observers: Nest observes
-- what a handler returns, for the client that asked, until the client leaves.
use moirae.Base.{
  ℕ, String, ◌==◌, ◌===◌, if◌then◌else◌, not, Bool, Bool-cases, inl, inr, true, false, Option, none,
  some, List, [], ◌∷◌, ◌++◌, map, ◌≡◌, refl, ◌∙◌, arith, select, select-append, All,
}
use moirae.Base.Dict.{get}
use moirae.Message.{Message, or_empty}

-- What a client asks for; the field of the body may be missing.
pub data Topic : Type 0 where
  of_id of_correlation of_requestor : Option String → Topic

-- `enum Subscriptions`
abbrev pub subscription : Topic → String
subscription (of_id _) = "@moirae/id"
subscription (of_correlation _) = "@moirae/correlationId"
subscription (of_requestor _) = "@moirae/requestor"

abbrev pub same_text : Option String → Option String → Bool
same_text none none = true
same_text (some a) (some b) = a === b
same_text _ _ = false

pub record Observer : Type 0 where
  pub client : ℕ
  pub topic : Topic

-- What the `map` makes of an event, with the client that gets it.
pub record WsResponse (D : Type 0) : Type 0 where
  pub client : ℕ
  pub event : String
  pub body : Message D

module _ {D : Type 0} where
  -- The `filter` of the three handlers
  abbrev pub matches : Topic → Message D → Bool
  matches (of_id id) event = same_text event.stream_id id
  matches (of_correlation id) event = same_text event.correlation_id id
  matches (of_requestor id) event = same_text (get "requestorId" (or_empty event.metadata)) id

  abbrev pub response : Observer → Message D → WsResponse D
  response o e = record { client = o.client; event = subscription o.topic; body = e }

  -- `subject.next(event)`
  unfoldable pub next : Message D → List Observer → List (WsResponse D)
  next event [] = []
  next event (o ∷ os) =
      if matches o.topic event then response o event ∷ next event os else next event os

-- `handleEvents`, `handleCorrelation` and `handleRequestor`, when Nest observes the result.
unfoldable pub observe : ℕ → Topic → List Observer → List Observer
observe client topic os = os ++ record { client = client; topic = topic } ∷ []

unfoldable pub leave : ℕ → List Observer → List Observer
leave client os = select (λ o. not (o.client == client)) os

pub data Step (D : Type 0) : Type 0 where
  asks : ℕ → Topic → Step D
  leaves : ℕ → Step D
  publishes : Message D → Step D

module _ {D : Type 0} where
  abbrev pub step : Step D → List Observer → List (WsResponse D) × List Observer
  step (asks client topic) os = ([], observe client topic os)
  step (leaves client) os = ([], leave client os)
  step (publishes event) os = (next event os, os)

  unfoldable pub run : List (Step D) → List Observer → List (WsResponse D)
  unfolding observe leave next
  run [] os = []
  run (s ∷ ss) os = (step s os).0 ++ run ss (step s os).1

  abbrev pub published : List (Step D) → List (Message D)
  published [] = []
  published (publishes event ∷ ss) = event ∷ published ss
  published (asks client topic ∷ ss) = published ss
  published (leaves client ∷ ss) = published ss

  -- What a client hears.
  abbrev pub heard : ℕ → List (WsResponse D) → List (WsResponse D)
  heard client rs = select (λ r. r.client == client) rs

  -- The steps of others.
  abbrev pub IsOther : ℕ → Step D → Type 0
  IsOther client (asks c t) = c == client ≡ false
  IsOther client (leaves c) = c == client ≡ false
  IsOther client (publishes e) = Unit

abbrev own : ℕ → List Observer → List Observer
own client os = select (λ o. o.client == client) os

own-leave :
    (client c : ℕ) (os : List Observer)
    → c == client ≡ false
    → own client (leave c os) ≡ own client os
unfolding leave
own-leave client c [] h = refl
own-leave client c (o ∷ os) h = ground (arith, own-leave client c os h)

own-leave_self : (client : ℕ) (os : List Observer) → own client (leave client os) ≡ []
unfolding leave
own-leave_self client [] = refl
own-leave_self client (o ∷ os) = ground (arith, own-leave_self client os)

module _ {D : Type 0} where
  heard-next :
      (client : ℕ) (event : Message D) (os : List Observer)
      → heard client (next event os) ≡ next event (own client os)
  unfolding next
  heard-next client event [] = refl
  heard-next client event (o ∷ os) = ground (arith, heard-next client event os)

  heard-none :
      (client : ℕ) (ss : List (Step D)) (os : List Observer)
      → own client os ≡ []
      → All (IsOther client) ss
      → heard client (run ss os) ≡ []
  unfolding run observe next
  heard-none client [] os h all = refl
  heard-none client (asks c t ∷ ss) os h all =
      heard-none client ss (observe c t os)
        (select-append (λ o. o.client == client) os (record { client = c; topic = t } ∷ [])
          ∙ rw (h, all.0) refl)
        all.1
  heard-none client (leaves c ∷ ss) os h all =
      heard-none client ss (leave c os) (own-leave client c os all.0 ∙ h) all.1
  heard-none client (publishes e ∷ ss) os h all =
      select-append (λ r. r.client == client) (next e os) (run ss os)
      ∙ rw (heard-next client e os, h, heard-none client ss os h all.1) refl

  heard-run :
      (client : ℕ) (topic : Topic) (ss after : List (Step D)) (os : List Observer)
      → own client os ≡ record { client = client; topic = topic } ∷ []
      → All (IsOther client) ss
      → All (IsOther client) after
      → heard client (run (ss ++ leaves client ∷ after) os)
        ≡ map
            (response (record { client = client; topic = topic }))
            (select (matches topic) (published ss))
  unfolding run observe next
  heard-run client topic [] after os h all rest =
      heard-none client after (leave client os) (own-leave_self client os) rest
  heard-run client topic (asks c t ∷ ss) after os h all rest =
      heard-run client topic ss after (observe c t os)
        (select-append (λ o. o.client == client) os (record { client = c; topic = t } ∷ [])
          ∙ rw (h, all.0) refl)
        all.1 rest
  heard-run client topic (leaves c ∷ ss) after os h all rest =
      heard-run client topic ss after (leave c os) (own-leave client c os all.0 ∙ h) all.1 rest
  heard-run client topic (publishes e ∷ ss) after os h all rest =
      select-append (λ r. r.client == client) (next e os) (run (ss ++ leaves client ∷ after) os)
      ∙ rw (heard-next client e os, h, heard-run client topic ss after os h all.1 rest)
          (elim (Bool-cases (matches topic e)) [ inl m ↦ rw m refl | inr m ↦ rw m refl ])

  -- Whatever other clients ask for and whenever they leave: a client that has asked for nothing, then
  -- asks for a topic and leaves later, hears exactly the events of its topic that are published in
  -- between, in order, each once and under the name of the subscription.
  pub heard-asks :
      (client : ℕ) (topic : Topic) (ss after : List (Step D)) (os : List Observer)
      → select (λ o. o.client == client) os ≡ []
      → All (IsOther client) ss
      → All (IsOther client) after
      → heard client (run (asks client topic ∷ (ss ++ leaves client ∷ after)) os)
        ≡ map
            (response (record { client = client; topic = topic }))
            (select (matches topic) (published ss))
  unfolding run observe
  heard-asks client topic ss after os h all rest =
      heard-run client topic ss after (observe client topic os)
        (select-append (λ o. o.client == client) os (record { client = client; topic = topic } ∷ [])
          ∙ rw h (ground arith))
        all rest
