-- ===== src/Tests/Observable.antt =====
-- The observables on concrete listeners.
use moirae.Base.{ℕ, ◌≢◌, refl, List, [], ◌∷◌, arith, ap, ◌===◌}
use moirae.Observable.Emitter.{times}
use moirae.Observable.Distributor.{Distributor, channel}
use moirae.Observable.Distributor
use moirae.Observable.Distributor.Delivery.{
  Call, subscribes, unsubscribes, InSync, run, step, run-InSync,
}
use moirae.Observable.StateTracker.{StateTracker}
use moirae.Observable.Messenger.{Messenger}

abbrev commands : Distributor
commands = record { uuid = "d1"; subscriptions = [] }

abbrev events : Distributor
events = record { uuid = "d2"; subscriptions = [] }

abbrev calls : List Call
calls = subscribes "k1" 7 ∷ subscribes "k2" 7 ∷ unsubscribes "k1" ∷ []

commands-InSync : InSync commands []
unfolding times
commands-InSync = record { synced = λ h. refl; distinct = tt }

run-InSync_example : let (d', ee') = run calls (commands, []) in InSync d' ee'
unfolding step Distributor.subscribe
run-InSync_example = run-InSync calls commands [] (refl, (refl, tt)) commands-InSync

d1_ne_d2 : commands.uuid ≢ events.uuid
d1_ne_d2 e = ground (arith, ap (λ s. s === "d2") e)

abbrev tracker : StateTracker ℕ
tracker = record { state = 0; uuid = "t"; subscriptions = [] }

abbrev service : Messenger
service = record {
  ee = ("Ready", 1) ∷ [];
  subscriptions = ("s1", record { message = "Ready"; handler = 1 }) ∷ [];
}
