-- ===== src/Queue/Runs.antt =====
-- A history of calls on the linked queue answers as one on a list does.
use moirae.Base.Dict.{has}
use moirae.Base.{
  String, ◌===◌, ◌≡◌, refl, ap, ◌∙◌, false, Option, none, some, List, [], ◌∷◌, ◌++◌, All, map,
}
use mathlib.Core.List.{map-append}
use moirae.Failure.{Result, ok, err}
use moirae.Queue.Defs.{Queue, empty, clear, dequeue, enqueue}
use moirae.Queue.Cells.{entries, Represents, has-entries-append, has-entries-tail}
use moirae.Queue.Fifo.{enqueue-Represents, dequeue-Represents, dequeue_empty, clear-Represents}

pub data Call (T : Type 0) : Type 0 where
  puts : String → T → Call T
  takes : Call T
  wipes : Call T

-- What `randomUUID` promises: no empty text, and no text twice.
abbrev pub IsFresh : List String → Type 0
IsFresh [] = Unit
IsFresh (k ∷ ks) = ((k === "") ≡ false) × All (λ j. (k === j) ≡ false) ks × IsFresh ks

Absent-nil : (T : Type 0) (ks : List String) → All (λ k. has k (entries {T = T} []) ≡ false) ks
Absent-nil T [] = tt
Absent-nil T (k ∷ ks) = (refl, Absent-nil T ks)

module _ {T : Type 0} where
  abbrev answer : Option T → Result (List (Option T)) → Result (List (Option T))
  answer x (ok xs) = ok (x ∷ xs)
  answer x (err e) = err e

  -- The answers of the `dequeue` calls; the first throw ends the history.
  unfoldable pub run : List (Call T) → Queue T → Result (List (Option T))
  run [] q = ok []
  run (puts k x ∷ calls) q =
      let (r, q') = enqueue k x q in elim r [ ok _ ↦ run calls q' | err e ↦ err e ]
  run (takes ∷ calls) q = let (x, q') = dequeue q in answer x (run calls q')
  run (wipes ∷ calls) q = run calls (clear q)

  -- The same history on a list of items, oldest first.
  unfoldable pub run_list : List (Call T) → List T → List (Option T)
  run_list [] xs = []
  run_list (puts k x ∷ calls) xs = run_list calls (xs ++ x ∷ [])
  run_list (takes ∷ calls) [] = none ∷ run_list calls []
  run_list (takes ∷ calls) (x ∷ xs) = some x ∷ run_list calls xs
  run_list (wipes ∷ calls) xs = run_list calls []

  abbrev pub uuids : List (Call T) → List String
  uuids [] = []
  uuids (puts k x ∷ calls) = k ∷ uuids calls
  uuids (takes ∷ calls) = uuids calls
  uuids (wipes ∷ calls) = uuids calls

  abbrev Absent : List (String × T) → List String → Type 0
  Absent cs = All λ k. has k (entries cs) ≡ false

  Absent-append :
      (k : String) (x : T) (cs : List (String × T)) (ks : List String)
      → Absent cs ks
      → All (λ j. (k === j) ≡ false) ks
      → Absent (cs ++ (k, x) ∷ []) ks
  Absent-append k x cs [] a d = tt
  Absent-append k x cs (j ∷ ks) a d =
      (has-entries-append j (k, x) cs a.0 d.0, Absent-append k x cs ks a.1 d.1)

  Absent-tail :
      (c : String × T) (cs : List (String × T)) (ks : List String)
      → Absent (c ∷ cs) ks
      → Absent cs ks
  Absent-tail c cs [] a = tt
  Absent-tail c cs (j ∷ ks) a = (has-entries-tail j c cs a.0, Absent-tail c cs ks a.1)

  abbrev items : List (String × T) → List T
  items = map λ c. c.1

  run-run_list :
      (calls : List (Call T)) (q : Queue T) (cs : List (String × T))
      → Represents q cs
      → IsFresh (uuids calls)
      → Absent cs (uuids calls)
      → run calls q ≡ ok (run_list calls (items cs))
  unfolding run run_list
  run-run_list [] q cs r f a = refl
  run-run_list (puts k x ∷ calls) q cs r f a =
      let s = enqueue-Represents k x q cs r f.0 a.0 in
      rw (s.0, run)
        (run-run_list calls (enqueue k x q).1 (cs ++ (k, x) ∷ []) s.1 f.2
            (Absent-append k x cs (uuids calls) a.1 f.1)
          ∙ ap (λ xs. ok (run_list calls xs)) (map-append _ cs ((k, x) ∷ [])))
  run-run_list (takes ∷ calls) q [] r f a =
      rw (dequeue_empty q r, run-run_list calls q [] r f a) refl
  run-run_list (takes ∷ calls) q (c ∷ cs) r f a =
      let s = dequeue-Represents q c cs r in
      rw (s.0, run-run_list calls (dequeue q).1 cs s.1 f (Absent-tail c cs (uuids calls) a)) refl
  run-run_list (wipes ∷ calls) q cs r f a =
      run-run_list calls (clear q) [] (clear-Represents q) f (Absent-nil T (uuids calls))

  -- Started empty, and with the fresh keys that `randomUUID` gives, the queue never throws and
  -- every `dequeue` answers as on a list: first in, first out, also after a `clear`.
  pub run-empty :
      (calls : List (Call T)) → IsFresh (uuids calls) → run calls empty ≡ ok (run_list calls [])
  unfolding empty
  run-empty calls f = run-run_list calls empty [] (refl, refl) f (Absent-nil T (uuids calls))
