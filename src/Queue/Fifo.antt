-- ===== src/Queue/Fifo.antt =====
-- Each operation of the linked queue of moirae/core/lib/classes/queue.class.ts does to the list of its
-- cells what a queue does.
use moirae.Base.Dict.{has, set, delete_absent, set_absent, get-set}
use moirae.Base.{
  String, ◌===◌, ◌≡◌, refl, ap, sym, ◌∙◌, suc, if◌then◌else◌, false, Option, none, some, List, [],
  ◌∷◌, ◌++◌, arith, eq_iff, length,
}
use moirae.Failure.{ok}
use moirae.Queue.Defs.{Queue, QueueItem, clear, queue_size, dequeue, enqueue}
use moirae.Queue.Cells.{
  entries, head_key, last_cell, IsKeys, Represents, get-last_cell, set-last_cell, last_cell-append,
  IsKeys-append, last_cell-named,
}

module _ {T : Type 0} where
  abbrev node : String × T → Option String → QueueItem T
  node c next = record { item = c.1; key = c.0; next_key = next }

  enqueue-eq :
      (k : String) (x : T) (q : Queue T) (c : String × T) (cs : List (String × T))
      → Represents q (c ∷ cs)
      → let l = last_cell c cs in
        enqueue k x q ≡ (
          ok tt,
          record {
            first_key = q.first_key;
            last_key = some k;
            map = set k (node (k, x) none) (set l.0 (node l (some k)) q.map);
          },
        )
  unfolding enqueue
  enqueue-eq k x q c cs r = ground (arith, get-last_cell c cs r.3, last_cell-named c cs r.3)

  set-set-entries :
      (k : String) (x : T) (c : String × T) (cs : List (String × T))
      → IsKeys (c ∷ cs)
      → has k (entries (c ∷ cs)) ≡ false
      → let l = last_cell c cs in
        set k (node (k, x) none) (set l.0 (node l (some k)) (entries (c ∷ cs)))
        ≡ entries ((c ∷ cs) ++ (k, x) ∷ [])
  set-set-entries k x c cs v fresh =
      let l = last_cell c cs in
      let m = set l.0 (node l (some k)) (entries (c ∷ cs)) in
      set_absent k (node (k, x) none) m (
        ground (
          arith,
          get-last_cell c cs v,
          get-set l.0 k (node l (some k)) (entries (c ∷ cs)),
          eq_iff l.0 k,
        ))
      ∙ set-last_cell c cs (k, x) v

  -- A fresh key: `enqueue` does not throw, and adds the item behind the others.
  pub enqueue-Represents :
      (k : String) (x : T) (q : Queue T) (cs : List (String × T))
      → Represents q cs
      → (k === "") ≡ false
      → has k (entries cs) ≡ false
      → ((enqueue k x q).0 ≡ ok tt) × Represents (enqueue k x q).1 (cs ++ (k, x) ∷ [])
  unfolding enqueue
  enqueue-Represents k x q [] r named fresh = ground arith
  enqueue-Represents k x q (c ∷ cs) r named fresh = rw (enqueue-eq k x q c cs r) (
    refl,
    (
      rw r.0 (set-set-entries k x c cs r.3 fresh),
      r.1,
      ap (λ d. some d.0) (sym (last_cell-append c cs (k, x))),
      IsKeys-append (c ∷ cs) (k, x) r.3 named fresh,
    ),
  )

  dequeue-eq :
      (q : Queue T) (c : String × T) (cs : List (String × T))
      → Represents q (c ∷ cs)
      → dequeue q ≡ (
        some c.1,
        record {
          first_key = head_key cs;
          last_key = if (last_cell c cs).0 === c.0 then none else some (last_cell c cs).0;
          map = entries cs;
        },
      )
  unfolding dequeue
  dequeue-eq q c cs r = ground (arith, eq_iff c.0 c.0, delete_absent c.0 (entries cs))

  last-ne :
      (c d : String × T) (ds : List (String × T))
      → IsKeys (c ∷ d ∷ ds)
      → ((last_cell d ds).0 === c.0) ≡ false
  last-ne c d ds v = ground (arith, eq_iff (last_cell d ds).0 c.0, get-last_cell d ds v.2)

  -- On a queue that is not empty `dequeue` returns the oldest item and leaves the others.
  pub dequeue-Represents :
      (q : Queue T) (c : String × T) (cs : List (String × T))
      → Represents q (c ∷ cs)
      → ((dequeue q).0 ≡ some c.1) × Represents (dequeue q).1 cs
  dequeue-Represents q c [] r =
      rw (dequeue-eq q c [] r) (refl, (refl, ground (arith, eq_iff c.0 c.0)))
  dequeue-Represents q c (d ∷ ds) r =
      rw (dequeue-eq q c (d ∷ ds) r) (refl, (refl, refl, rw (last-ne c d ds r.3), r.3.2))

  pub dequeue_empty : (q : Queue T) → Represents q [] → dequeue q ≡ (none, q)
  unfolding dequeue
  dequeue_empty q r = ground arith

  pub clear-Represents : (q : Queue T) → Represents (clear q) []
  unfolding clear
  clear-Represents q = (refl, refl)

  length-entries : (cs : List (String × T)) → length (entries cs) ≡ length cs
  length-entries [] = refl
  length-entries (c ∷ cs) = ap suc (length-entries cs)

  pub queue_size-length :
      (q : Queue T) (cs : List (String × T)) → Represents q cs → queue_size q ≡ length cs
  unfolding queue_size
  queue_size-length q [] r = ground arith
  queue_size-length q (c ∷ cs) r = rw r.0 (length-entries (c ∷ cs))
