-- ===== src/Redis/Connection.antt =====
-- moirae/redis/lib/providers/redis.connection.ts. `createClient` of the package redis and the client's
-- connection are parameters.
use moirae.Base.{
  if◌then◌else◌, Bool, Bool-cases, true, false, Option, none, some, ◌≡◌, refl, inl, inr,
}
use moirae.Failure.{ok, err, type_error, Action, pure, ◌>>◌}

pub record Connector (O St : Type 0) : Type 0 where
  pub create_client : O → St
  pub is_open : St → Bool
  pub connect : Action St (Unit {0})
  pub quit : Action St (Unit {0})
  pub flush_db : Action St (Unit {0})

-- `quit` of an open client closes it.
pub record ConnectorLaws {O St : Type 0} (c : Connector O St) : Type 0 where
  pub quit-ok : (s : St) → c.is_open s ≡ true → (c.quit s).0 ≡ ok tt
  pub is_open-quit : (s : St) → c.is_open s ≡ true → c.is_open (c.quit s).1 ≡ false

pub record ConnectionOptions (O : Type 0) : Type 0 where
  pub redis : O
  pub clear : Bool

module _ {O St : Type 0} (c : Connector O St) where
  -- What is done to the new client; `_connection` is set before.
  abbrev opened : Bool → Action St (Unit {0})
  opened clear = c.connect >> (if clear then c.flush_db else pure tt)

  unfoldable pub on_module_init : ConnectionOptions O → Action (Option St) (Unit {0})
  on_module_init options _ =
      let (r, client) = opened options.clear (c.create_client options.redis) in (r, some client)

  unfoldable pub on_application_shutdown : Action (Option St) (Unit {0})
  on_application_shutdown none = (err type_error, none)
  on_application_shutdown (some client) =
      let (r, client') = c.quit client in
      if c.is_open client then (r, some client') else (ok tt, some client)

  shutdown-closed :
      (s : St) → c.is_open s ≡ false → on_application_shutdown (some s) ≡ (ok tt, some s)
  unfolding on_application_shutdown
  shutdown-closed s h = rw h refl

  -- Also where the start of the connection threw, the shutdown returns and leaves a client that is not
  -- open; a second shutdown does nothing. Without the start it throws.
  pub shutdown-on_module_init :
      (options : ConnectionOptions O) (before : Option St)
      → ConnectorLaws c
      → let (_, started) = on_module_init options before in
        let (r, stopped) = on_application_shutdown started in
        (r ≡ ok tt)
        × (client : St) × (stopped ≡ some client)
        × (c.is_open client ≡ false)
        × (on_application_shutdown stopped ≡ (ok tt, stopped))
        × (on_application_shutdown none ≡ (err type_error, none))
  unfolding on_module_init on_application_shutdown
  shutdown-on_module_init options before laws =
      let s = (opened options.clear (c.create_client options.redis)).1 in
      elim (Bool-cases (c.is_open s)) [
        | inl still ↦
            let closed = laws.is_open-quit s still in
            rw (still, closed) (laws.quit-ok s still, (c.quit s).1, refl, closed, refl, refl)
        | inr idle ↦ rw (idle) (refl, s, refl, idle, shutdown-closed s idle, refl)
      ]
