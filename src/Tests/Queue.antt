-- ===== src/Tests/Queue.antt =====
-- The linked queue on concrete calls.
use moirae.Base.{String, ◌≡◌, refl, none, some, List, [], ◌∷◌, arith}
use moirae.Failure.{ok}
use moirae.Queue.{Queue, enqueue, dequeue}
use moirae.Queue
use moirae.Queue.Runs.{Call, puts, takes, wipes, run, run_list, run-empty, IsFresh, uuids}

abbrev calls : List (Call String)
calls =
    puts "k1" "a"
    ∷ puts "k2" "b"
    ∷ takes
    ∷ puts "k3" "c"
    ∷ takes
    ∷ wipes
    ∷ takes
    ∷ puts "k4" "d"
    ∷ takes
    ∷ []

run-calls : run calls Queue.empty ≡ ok (some "a" ∷ some "b" ∷ none ∷ some "d" ∷ [])
unfolding run enqueue dequeue Queue.empty Queue.clear
run-calls = refl

calls-IsFresh : IsFresh (uuids calls)
calls-IsFresh = ground arith

run-empty_example : run calls Queue.empty ≡ ok (run_list calls [])
run-empty_example = run-empty calls calls-IsFresh
