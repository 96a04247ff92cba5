-- ===== src/Tests/Gateway.antt =====
-- The gateway of the demo on concrete requests, with a text for each body of a command.
use moirae.Base.{ℕ, zero, suc, String, Bool, true, false, Option, none, some, [], ◌∷◌, ◌≡◌, refl}
use moirae.Base.Dict.{has}
use moirae.Failure.{ok}
use moirae.Message.{Message}
use moirae.Cache.Memory.{MemoryCache, memory_cache}
use moirae.Queue
use moirae.Observable.Distributor
use moirae.Observable.Emitter.{listeners}
use moirae.Publisher.{Publisher, not_ready, idle, subscribe, Wire}
use moirae.Publisher
use moirae.Publisher.Order.{Tracks}
use moirae.Publisher.History.{ready-Tracks}
use moirae.Bus.{Scene}
use moirae.Bus.Execute.{CommandResponse}
use moirae.Demo.Integers.{ℤ, pos, negsuc}
use moirae.Demo.Commands.{
  Body, order_body, create_account_input, funds_input, order_input, create_inventory_input,
  remove_inventory_input, rollback_data, account_domain,
}
use moirae.Demo.Controllers.{Request, withdraw_funds, handle_request, handle_request-responds}
use moirae.Tests.Codec.{
  Codec, bool_codec, nat_codec, text_codec, option_codec, pair_codec, view_codec,
}
use moirae.Tests.Sample.{body_codec, wire_of, wire_of-WireLaws, json, no_responses}
use moirae.Tests.Publisher.{key_absent}

abbrev from_sign : Bool × ℕ → ℤ
from_sign (true, n) = pos n
from_sign (false, n) = negsuc n

abbrev to_sign : ℤ → Bool × ℕ
to_sign (pos n) = (true, n)
to_sign (negsuc n) = (false, n)

from_sign-to_sign : (z : ℤ) → from_sign (to_sign z) ≡ z
from_sign-to_sign (pos n) = refl
from_sign-to_sign (negsuc n) = refl

abbrev integer_codec : Codec ℤ
integer_codec = view_codec (pair_codec bool_codec nat_codec) to_sign from_sign from_sign-to_sign

-- Which body, three texts, what may be missing, two amounts and three numbers.
abbrev Flat : Type 0
Flat = ℕ × ((String × (String × String)) × ((Option String × Option ℤ) × ((ℤ × ℤ) × (ℕ × (ℕ × ℕ)))))

abbrev flat_codec : Codec Flat
flat_codec = pair_codec nat_codec (
    pair_codec (pair_codec text_codec (pair_codec text_codec text_codec)) (
      pair_codec (pair_codec (option_codec text_codec) (option_codec integer_codec)) (
        pair_codec (pair_codec integer_codec integer_codec)
          (pair_codec nat_codec (pair_codec nat_codec nat_codec)))))

abbrev flat : ℕ → String → String → ℤ → ℕ → Flat
flat tag a b z n = (tag, ((a, (b, "")), ((none, none), ((z, pos 0), (n, (0, 0))))))

abbrev to_flat : Body → Flat
to_flat (order_body o) = (
  0,
  (
    (o.id, (o.account_id, o.inventory_id)),
    ((none, none), ((o.cost, pos 0), (o.quantity, (o.created_at, o.updated_at)))),
  ),
)
to_flat (create_account_input name balance) =
    (1, ((name, ("", "")), ((none, balance), ((pos 0, pos 0), (0, (0, 0))))))
to_flat (funds_input account funds) = flat 2 account "" funds 0
to_flat (order_input account inventory quantity) = flat 3 account inventory (pos 0) quantity
to_flat (create_inventory_input name quantity price) =
    (4, ((name, ("", "")), ((none, none), ((quantity, price), (0, (0, 0))))))
to_flat (remove_inventory_input inventory order quantity) = flat 5 inventory order (pos 0) quantity
to_flat (rollback_data stream correlation) =
    (6, ((correlation, ("", "")), ((stream, none), ((pos 0, pos 0), (0, (0, 0))))))

abbrev from_flat : Flat → Body
from_flat (zero, ((a, (b, c)), (_, ((z, _), (n, (k, l)))))) = order_body (record {
  id = a;
  account_id = b;
  inventory_id = c;
  cost = z;
  quantity = n;
  created_at = k;
  updated_at = l;
})
from_flat (suc zero, ((a, _), ((_, balance), _))) = create_account_input a balance
from_flat (suc (suc zero), ((a, _), (_, ((z, _), _)))) = funds_input a z
from_flat (suc (suc (suc zero)), ((a, (b, _)), (_, (_, (n, _))))) = order_input a b n
from_flat (suc (suc (suc (suc zero))), ((a, _), (_, ((z, y), _)))) = create_inventory_input a z y
from_flat (suc (suc (suc (suc (suc zero)))), ((a, (b, _)), (_, (_, (n, _))))) =
    remove_inventory_input a b n
from_flat (suc (suc (suc (suc (suc (suc _))))), ((a, _), ((stream, _), _))) = rollback_data stream a

from_flat-to_flat : (b : Body) → from_flat (to_flat b) ≡ b
from_flat-to_flat (order_body o) = refl
from_flat-to_flat (create_account_input name balance) = refl
from_flat-to_flat (funds_input account funds) = refl
from_flat-to_flat (order_input account inventory quantity) = refl
from_flat-to_flat (create_inventory_input name quantity price) = refl
from_flat-to_flat (remove_inventory_input inventory order quantity) = refl
from_flat-to_flat (rollback_data stream correlation) = refl

unfoldable event_codec : Codec (Message Body)
event_codec = body_codec (view_codec flat_codec to_flat from_flat from_flat-to_flat)

unfoldable wire : Wire Body ℕ
wire = wire_of event_codec

abbrev publisher : Publisher Body ℕ
publisher = subscribe "k" 1 (record {
  node_id = "gateway";
  queue = none;
  status = not_ready;
  distributor = record { uuid = "d"; subscriptions = [] };
  ee = [];
  workers = [];
  running = [];
  delivered = [];
  response_map = no_responses;
})

abbrev scene : Scene ℕ Body ℕ ℕ MemoryCache
scene = record {
  world = 0;
  bus = record { status = idle; handlers = []; error_handlers = [] };
  publisher = Publisher.bootstrap publisher;
  cache = record { key_value = []; sets = [] };
}

scene-Tracks : Tracks wire scene.publisher []
unfolding subscribe Distributor.subscribe Distributor.publish Distributor.channel
    Distributor.listener_count listeners
scene-Tracks = ready-Tracks wire publisher (refl, 1, refl) refl refl

queue_ready : (elim scene.publisher.queue [ none ↦ false | some q ↦ has "q" q.map ]) ≡ false
unfolding Publisher.bootstrap Queue.empty
queue_ready = refl

abbrev request : Request
request = withdraw_funds "a1" (pos 30)

handle_request-responds_example :
    let (res, s') =
      handle_request json memory_cache wire [] [] (λ n. "q") "q" "c1" "s1" "own" request scene in
    let answer : CommandResponse = record { correlation_id = some "c1"; stream_id = some "a1" } in
    (res ≡ ok answer)
    × (s'.world ≡ 0)
    × (c : Message Body) × (c.name ≡ "WithdrawFundsCommand")
    × (c.payload ≡ funds_input "a1" (pos 30))
    × (c.metadata ≡ some [])
    × (c.execution_domain ≡ some account_domain)
    × (c.correlation_id ≡ some "c1")
    × (c.stream_id ≡ some "a1")
    × Tracks wire s'.publisher (c ∷ [])
unfolding subscribe wire
handle_request-responds_example =
    handle_request-responds json memory_cache wire [] [] (λ n. "q") "q" "c1" "s1" "own" request
      scene [] refl refl refl refl (wire_of-WireLaws event_codec)
      (refl, key_absent "q" scene.publisher.queue queue_ready) scene-Tracks
