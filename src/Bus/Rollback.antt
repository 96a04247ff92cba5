-- ===== src/Bus/Rollback.antt =====
-- A command whose handler throws: command.bus.ts, saga-manager.class.ts and the memory publisher.
use mathlib.Core.List.{append-nil, append_assoc}
use mathlib.Core.Path.{subst}
use moirae.Base.{
  ℕ, String, Option, none, some, List, [], ◌∷◌, ◌++◌, ◌+◌, map, ◌≡◌, refl, ap, ◌∙◌, arith,
}
use moirae.Base.Dict.{Dict, get}
use moirae.Failure.{Error, Result, ok, err, name, Action}
use moirae.Message.{Message}
use moirae.Cache.{Handles, Json}
use moirae.Publisher.{idle, Publisher, Wire, routed}
use moirae.Publisher.Order.{WireLaws, IsNewKey, Tracks, publish-Tracks}
use moirae.Store.Streams.{sent_by, publish-node_id}
use moirae.Saga.{rollback_sagas, printed}
use moirae.Bus.Defs.{
  Scene, defaulted, publish, publish_all, execute_local, fail_command, base_execute_local,
  run_local, fail_with,
}

module _ {D R : Type 0} (wire : Wire D R) where
  -- Each publication draws a key that is not in use then.
  abbrev pub AreNew : (ℕ → String) → ℕ → List (Message D) → Publisher D R → Type 0
  AreNew draw n [] p = Unit
  AreNew draw n (c ∷ cs) p =
      IsNewKey (draw n) p × AreNew draw (n + 1) cs (publish wire (draw n) c p).1

  abbrev pub outgoing : String → List (Message D) → List (Message D)
  outgoing node = map (λ c. sent_by node (defaulted c))

  pub publish_all-Tracks :
      (draw : ℕ → String) (n : ℕ) (cs : List (Message D)) (p : Publisher D R)
      (sent : List (Message D))
      → WireLaws wire
      → AreNew draw n cs p
      → Tracks wire p sent
      → ((publish_all wire draw n cs p).0 ≡ ok tt)
        × Tracks wire (publish_all wire draw n cs p).1 (sent ++ outgoing p.node_id cs)
  unfolding publish_all publish routed
  publish_all-Tracks draw n [] p sent laws new t = (refl, rw append-nil t)
  publish_all-Tracks draw n (c ∷ cs) p sent laws new t =
      let e = sent_by p.node_id (defaulted c) in
      let p' = (publish wire (draw n) c p).1 in
      let (r, t') = publish-Tracks wire laws (draw n) (defaulted c) p sent new.0 t in
      let (rs, t'') = publish_all-Tracks draw (n + 1) cs p' (sent ++ e ∷ []) laws new.1 t' in
      let node = publish-node_id wire (draw n) (defaulted c) p in
      (
        ground (arith, r, rs),
        subst (Tracks wire (publish_all wire draw (n + 1) cs p').1)
            (ap (λ m. (sent ++ e ∷ []) ++ outgoing m cs) node
              ∙ append_assoc sent (e ∷ []) (outgoing p.node_id cs))
            t'',
      )

module _ {W D R V St : Type 0} (json : Json String) (cache : Handles St) (wire : Wire D R)
    (constructors : Dict (Option String → String → Message D)) where
  execute_local-eq :
      (draw : ℕ → String) (command : Message D) (s : Scene W D R V St)
      (execute : Message D → Action W V) (e : Error) (w : W) (commands : List (Message D))
      → get command.name s.bus.handlers ≡ some execute
      → execute command s.world ≡ (err e, w)
      → rollback_sagas json cache constructors (printed command.correlation_id) s.cache
        ≡ ok commands
      → get (name e) s.bus.error_handlers ≡ none
      → (publish_all wire draw 0 commands s.publisher).0 ≡ ok tt
      → execute_local json cache wire constructors draw command s ≡ (
        ok tt,
        record {
          world = w;
          bus = record s.bus { status = idle };
          publisher = (publish_all wire draw 0 commands s.publisher).1;
          cache = s.cache;
        },
      )
  unfolding execute_local base_execute_local fail_command
  execute_local-eq draw command s execute e w commands found threw rolled uncaught ran =
      ground (arith, found, threw, rolled, uncaught, ran)

  -- The handler of a command throws an error that no filter catches, and the correlation is rolled back:
  -- over a publisher with one worker, the call does not throw, the bus is idle, and exactly the rollback
  -- commands join what is published, in order, for the worker to take.
  pub execute_local-fails :
      (draw : ℕ → String) (command : Message D) (s : Scene W D R V St)
      (execute : Message D → Action W V) (e : Error) (w : W) (commands sent : List (Message D))
      → get command.name s.bus.handlers ≡ some execute
      → execute command s.world ≡ (err e, w)
      → rollback_sagas json cache constructors (printed command.correlation_id) s.cache
        ≡ ok commands
      → get (name e) s.bus.error_handlers ≡ none
      → WireLaws wire
      → AreNew wire draw 0 commands s.publisher
      → Tracks wire s.publisher sent
      → let (r, s') = execute_local json cache wire constructors draw command s in
        (r ≡ ok tt)
        × (s'.bus.status ≡ idle)
        × (s'.world ≡ w)
        × Tracks wire s'.publisher (sent ++ outgoing wire s.publisher.node_id commands)
  execute_local-fails draw command s execute e w commands sent found threw rolled uncaught laws new
        t =
      let (r, t') = publish_all-Tracks wire draw 0 commands s.publisher sent laws new t in
      rw (execute_local-eq draw command s execute e w commands found threw rolled uncaught r)
        (refl, refl, refl, t')

module _ {W D R V St : Type 0} (wire : Wire D R) where
  -- `executeLocal` asks the manager of sagas about one correlation only.
  pub run_local-rollback :
      (rollback rollback' : String → St → Result (List (Message D))) (draw : ℕ → String)
      (command : Message D) (s : Scene W D R V St)
      → rollback (printed command.correlation_id) s.cache
        ≡ rollback' (printed command.correlation_id) s.cache
      → run_local wire rollback draw command s ≡ run_local wire rollback' draw command s
  unfolding run_local fail_with
  run_local-rollback rollback rollback' draw command s h = ground arith
