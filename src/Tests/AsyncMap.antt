-- ===== src/Tests/AsyncMap.antt =====
-- An AsyncMap that a caller waits on, and a publisher whose caller waits for a response.
use moirae.Base.{
  ℕ, String, Bool, true, false, not, ◌==◌, ◌===◌, none, some, List, [], ◌∷◌, ◌≡◌, refl,
}
use moirae.Base.Dict.{get}
use moirae.Failure.{ok}
use moirae.Observable.Distributor.{Distributor}
use moirae.Observable.Distributor
use moirae.AsyncMap.{AsyncMap, Waiter, wait_get, set, resume, construct, size}
use moirae.AsyncMap
use moirae.AsyncMap.Live.{Live, construct-Live}
use moirae.AsyncMap.Wake.{set-wakes}
use moirae.AsyncMap.History.{
  Call, sets, waits, times_out, resumes, run, step, AreNew, IsNew, run-Live, wait_get-Live,
}
use moirae.Publisher.{Publisher, Response, handle_response}
use moirae.Publisher.Responses.{await_response, go_on, await-respond, respond-await}
use moirae.Tests.Sample.{wire, response_codec}
use moirae.Tests.Publisher.{new}

abbrev distributor : Distributor
distributor = record { uuid = "d"; subscriptions = [] }

abbrev values : ℕ → Bool
values n = not (n == 0)

abbrev empty : AsyncMap ℕ
empty = construct distributor []

abbrev calls : List (Call ℕ)
calls = waits "i" 1 "k" ∷ waits "j" 2 "l" ∷ sets "k" 5 ∷ times_out "j" ∷ resumes "i" ∷ []

calls-AreNew : AreNew values calls empty
unfolding run step construct wait_get Distributor.subscribe
calls-AreNew = ((refl, refl, refl), ((refl, refl, refl), tt))

run-Live_example : Live (run values calls empty)
run-Live_example = run-Live values calls empty calls-AreNew (construct-Live distributor refl)

abbrev waiting_calls : List (Call ℕ)
waiting_calls = waits "i" 1 "k" ∷ waits "j" 2 "l" ∷ []

waiting_calls-AreNew : AreNew values waiting_calls empty
unfolding run step construct wait_get Distributor.subscribe
waiting_calls-AreNew = ((refl, refl, refl), ((refl, refl, refl), tt))

abbrev waiting : AsyncMap ℕ
waiting = run values waiting_calls empty

abbrev waiter : Waiter
waiter = record { listener = 1; key = "k" }

waiting_at : get "i" waiting.waiting ≡ some waiter
unfolding run step construct wait_get Distributor.subscribe
waiting_at = refl

set-wakes_example :
    let m' = set "k" 7 waiting in
    (waiter.key ≡ "k" → (get "i" m'.waiting ≡ none) × ((resume "i" m').0 ≡ some (ok 7)))
    × ((waiter.key === "k") ≡ false → get "i" m'.waiting ≡ some waiter)
set-wakes_example =
    set-wakes "i" "k" 7 waiter waiting
      (run-Live values waiting_calls empty waiting_calls-AreNew (construct-Live distributor refl))
      waiting_at

-- The text of a response with the key "r".
abbrev response : Response ℕ
response = record { payload = 3; response_key = "r"; routing_key = "n" }

abbrev text : String
text = response_codec.put response ""

abbrev client : Publisher ℕ ℕ
client = record new { response_map = construct distributor [] }

client-Live : Live client.response_map
client-Live = construct-Live distributor refl

client-IsNew : IsNew "i" 1 client.response_map
unfolding construct
client-IsNew = (refl, refl, refl)

absent : AsyncMap.has (wire.parse_response text).response_key client.response_map ≡ false
unfolding construct AsyncMap.has
absent = refl

await-respond_example :
    let res = wire.parse_response text in
    let (found, p₁) = await_response "i" 1 res.response_key client in
    let (r, p₂) = go_on "i" res.response_key (handle_response wire text p₁) in
    (found ≡ none) × (r ≡ some (ok res)) × (AsyncMap.has res.response_key p₂.response_map ≡ false)
await-respond_example = await-respond wire "i" 1 text client client-Live client-IsNew absent

respond-await_example :
    let res = wire.parse_response text in
    let (found, p') = await_response "i" 1 res.response_key (handle_response wire text client) in
    (found ≡ some (some res)) × (AsyncMap.has res.response_key p'.response_map ≡ false)
respond-await_example = respond-await wire "i" 1 text client

abbrev waiting_client : Publisher ℕ ℕ
waiting_client = (await_response "i" 1 "r" client).1

waiting_client-Live : Live waiting_client.response_map
unfolding await_response wait_get construct
waiting_client-Live =
    wait_get-Live (λ r. true) "i" 1 "r" client.response_map client-Live client-IsNew

waits_there :
    get "i" waiting_client.response_map.waiting ≡ some (record { listener = 1; key = "r" })
unfolding await_response wait_get construct
waits_there = refl

nothing_yet :
    AsyncMap.has (wire.parse_response text).response_key waiting_client.response_map ≡ false
unfolding construct AsyncMap.has await_response wait_get wire response_codec
nothing_yet = refl
