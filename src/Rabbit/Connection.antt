-- ===== src/Rabbit/Connection.antt =====
-- moirae/rabbitmq/lib/providers/rabbitmq.connection.ts. `connect` of amqplib is taken to succeed; a
-- connection fires its `close` event in a step of its own. All the closures that `onModuleInit` gives to
-- the messenger do the same, so that they are one listener here, registered under several ids.
use Prim.Native.Nat.{◌^◌}
use moirae.Base.{
  ℕ, zero, suc, ◌+◌, String, ◌==◌, Bool, true, false, if◌then◌else◌, not, Option, none, some, List,
  [], ◌∷◌, ◌++◌, ◌≡◌, refl, arith, ap, ◌∙◌, length, length-append, select, select-append, is_some,
  Bool-cases, inl, inr,
}
use moirae.Base.Dict.{has}
use moirae.Failure.{Error, Result, ok, err, custom, type_error}
use moirae.Observable.Emitter.{listeners, listeners-add}
use moirae.Observable.Messenger.{Messenger, on, unsubscribe-on}
use moirae.Observable.Messenger

pub record Connection : Type 0 where
  -- how many connections were opened
  pub opened : ℕ
  pub opened_once : Bool
  pub closed_subscription_id : Option String
  pub messenger : Messenger
  -- the listeners that heard that a connection was opened, or opened again
  pub told : List ℕ

unfoldable pub construct : Messenger → Connection
construct messenger = record {
  opened = 0;
  opened_once = false;
  closed_subscription_id = none;
  messenger = messenger;
  told = [];
}

-- `[command, event, query].find((c) => !!c.amqplib)`
abbrev pub find_config {ℓ} : {A : Type ℓ} → List (Option A) → Option A
find_config [] = none
find_config (none ∷ cs) = find_config cs
find_config (some c ∷ cs) = some c

abbrev pub closed : String
closed = "RabbitMQConnectionClosedMessage"

module _ (reconnect : ℕ) (draw : ℕ → String) where
  -- `onModuleInit` behind the choice of the configuration.
  unfoldable pub open_connection : Connection → Connection
  open_connection c =
      let m = on (draw c.opened) closed reconnect c.messenger in
      record {
        opened = suc c.opened;
        opened_once = true;
        closed_subscription_id = some (draw c.opened);
        messenger = m;
        told =
            c.told
            ++ (Messenger.publish "RabbitMQConnectionOpenedMessage" m
                ++ (if c.opened_once
                    then Messenger.publish "RabbitMQConnectionReOpenedMessage" m
                    else []));
      }

  unfoldable pub on_module_init {ℓ} :
      {A : Type ℓ} → List (Option A) → Connection → Result (Unit {0}) × Connection
  unfolding open_connection
  on_module_init configs c = elim (find_config configs) [
    | none ↦ (err (custom "InvalidConfigurationError"), c)
    | some config ↦ (ok tt, open_connection c)
  ]

  -- `if (message.crashed) await this.onModuleInit()`, for those listeners that are that closure.
  unfoldable pub call_all : Bool → List ℕ → Connection → Connection
  unfolding open_connection
  call_all crashed [] c = c
  call_all crashed (h ∷ hs) c =
      call_all crashed hs (if crashed then (if h == reconnect then open_connection c else c) else c)

  -- The `close` event of a connection: `new RabbitMQConnectionClosedMessage(!!!err)`.
  unfoldable pub close_event : Option Error → Connection → Connection
  unfolding call_all
  close_event e c = call_all (not (is_some e)) (Messenger.publish closed c.messenger) c

  -- `onApplicationShutdown`, where `close` of the connection does not throw; its event comes later.
  unfoldable pub on_application_shutdown : Connection → Result (Unit {0}) × Connection
  unfolding call_all
  on_application_shutdown c = elim c.closed_subscription_id [
    | none ↦ (err type_error, c)
    | some id ↦ elim (Messenger.unsubscribe id c.messenger).0 [
      | err e ↦ (err e, c)
      | ok _ ↦
          let m = (Messenger.unsubscribe id c.messenger).1 in
          (ok tt, call_all false (Messenger.publish closed m) (record c { messenger = m }))
    ]
  ]

  -- How many listeners would open a connection again.
  abbrev pub reconnects : Connection → ℕ
  reconnects c = length (select (λ h. h == reconnect) (Messenger.publish closed c.messenger))

  reconnects-open_connection :
      (c : Connection) → reconnects (open_connection c) ≡ suc (reconnects c)
  unfolding open_connection on Messenger.publish
  reconnects-open_connection c =
      let ls = listeners closed c.messenger.ee in
      ap (λ l. length (select (λ h. h == reconnect) l))
        (listeners-add closed closed reconnect c.messenger.ee)
      ∙ ap length (select-append (λ h. h == reconnect) ls (reconnect ∷ []))
      ∙ length-append (select (λ h. h == reconnect) ls)
          (select (λ h. h == reconnect) (reconnect ∷ []))
      ∙ ground arith

  opened_suc : (c : Connection) → (open_connection c).opened ≡ suc c.opened
  unfolding open_connection
  opened_suc c = refl

  call_all-counts :
      (hs : List ℕ) (c : Connection)
      → let n = length (select (λ h. h == reconnect) hs) in
        (reconnects (call_all true hs c) ≡ reconnects c + n)
        × ((call_all true hs c).opened ≡ c.opened + n)
  unfolding call_all
  call_all-counts [] c = (omega arith, omega arith)
  call_all-counts (h ∷ hs) c = elim (Bool-cases (h == reconnect)) [
    | inl e ↦
        let (more, opened) = call_all-counts hs (open_connection c) in
        let one = reconnects-open_connection c in
        (ground (arith, e, more, one), ground (arith, e, opened, opened_suc c))
    | inr e ↦ ground (arith, e, call_all-counts hs c)
  ]

  call_all-idle : (hs : List ℕ) (c : Connection) → call_all false hs c ≡ c
  unfolding call_all
  call_all-idle [] c = refl
  call_all-idle (h ∷ hs) c = call_all-idle hs c

  -- A connection closes `k` times, each time without an error.
  unfoldable pub closings : ℕ → Connection → Connection
  unfolding close_event
  closings zero c = c
  closings (suc k) c = close_event none (closings k c)

  -- From a service with no connection, whose messenger does not know the closure yet: after the start and
  -- `k` closings without an error, 2 ^ k connections were opened, and the next closing opens as many.
  pub closings-doubles :
      (k : ℕ) (m : Messenger)
      → reconnects (construct m) ≡ 0
      → let c = closings k (open_connection (construct m)) in
        (c.opened ≡ 2 ^ k) × (reconnects c ≡ 2 ^ k)
  unfolding closings close_event construct
  closings-doubles zero m none_yet =
      (opened_suc (construct m), reconnects-open_connection (construct m) ∙ ap suc none_yet)
  closings-doubles (suc k) m none_yet =
      let c = closings k (open_connection (construct m)) in
      let (opened, again) = closings-doubles k m none_yet in
      let (more, opened') = call_all-counts (Messenger.publish closed c.messenger) c in
      (omega (arith, opened, again, opened'), omega (arith, again, more))

  -- A connection that closes with an error, as after a crash, is not opened again.
  pub close_event-error : (e : Error) (c : Connection) → close_event (some e) c ≡ c
  unfolding close_event
  close_event-error e c = call_all-idle (Messenger.publish closed c.messenger) c

  -- When the application shuts down after the connection was opened anew, only the last subscription ends:
  -- the call does not throw, and the `close` event that follows opens as many connections as there were
  -- listeners before that opening.
  pub shutdown-reopens :
      (c : Connection)
      → has (draw c.opened) c.messenger.subscriptions ≡ false
      → let (r, c') = on_application_shutdown (open_connection c) in
        (r ≡ ok tt) × ((close_event none c').opened ≡ suc c.opened + reconnects c)
  unfolding on_application_shutdown open_connection close_event
  shutdown-reopens c new =
      let c₁ = open_connection c in
      let (heard, ended, unknown) =
        unsubscribe-on (draw c.opened) closed reconnect c.messenger new in
      let (more, opened) =
        call_all-counts (Messenger.publish closed c.messenger)
          (record c₁ { messenger = c.messenger }) in
      let idle =
        call_all-idle (Messenger.publish closed c.messenger)
          (record c₁ { messenger = c.messenger }) in
      (ground (arith, ended), ground (arith, ended, idle, opened))
