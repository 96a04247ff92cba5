-- ===== src/Observable/Distributor/Defs.antt =====
-- moirae/core/lib/classes/distributor.class.ts. Each method that touches the emitter returns it.
use Prim.Native.String.{◌++◌}
use moirae.Base.{ℕ, String, none, some, List, []}
use moirae.Base.Dict.{Dict, get, set, delete, size}
use moirae.Observable.Emitter.{Emitter, add_listener, remove_listener, listeners}

pub record Distributor : Type 0 where
  pub uuid : String
  pub subscriptions : Dict ℕ

unfoldable pub construct : String → Distributor
construct uuid = record { uuid = uuid; subscriptions = [] }

-- `get _key()`
unfoldable pub channel : Distributor → String
channel d = d.uuid ++ ":__dist-key__"

unfoldable pub listener_count : Distributor → ℕ
listener_count d = size d.subscriptions

unfoldable pub clear : Distributor → Distributor
clear d = record d { subscriptions = [] }

unfoldable pub subscribe : String → ℕ → Distributor → Emitter → Distributor × Emitter
subscribe key handler d ee = (
  record d { subscriptions = set key handler d.subscriptions },
  add_listener (channel d) handler ee,
)

-- The listeners that receive the payload, in order.
unfoldable pub publish : Distributor → Emitter → List ℕ
publish d ee = listeners (channel d) ee

unfoldable pub unsubscribe : String → Distributor → Emitter → Distributor × Emitter
unsubscribe key d ee = elim (get key d.subscriptions) [
  | none ↦ (d, ee)
  | some handler ↦ (
    record d { subscriptions = delete key d.subscriptions },
    remove_listener (channel d) handler ee,
  )
]
