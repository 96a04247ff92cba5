-- ===== src/Queue/Cells.antt =====
-- What a linked queue stands for: its entries as key and item, oldest first.
use moirae.Base.Dict.{Dict, get, has, set}
use moirae.Base.{
  String, ◌===◌, ◌≡◌, refl, false, Option, none, some, List, [], ◌∷◌, ◌++◌, arith, eq_iff,
}
use moirae.Queue.Defs.{Queue, QueueItem}

module _ {T : Type 0} where
  abbrev pub head_key : List (String × T) → Option String
  head_key [] = none
  head_key (c ∷ cs) = some c.0

  abbrev pub last_cell : String × T → List (String × T) → String × T
  last_cell c [] = c
  last_cell c (d ∷ ds) = last_cell d ds

  -- The map of a queue with these cells.
  abbrev pub entries : List (String × T) → Dict (QueueItem T)
  entries [] = []
  entries (c ∷ cs) = (c.0, record { item = c.1; key = c.0; next_key = head_key cs }) ∷ entries cs

  -- Keys are not empty, and none occurs twice.
  abbrev pub IsKeys : List (String × T) → Type 0
  IsKeys [] = Unit
  IsKeys (c ∷ cs) = ((c.0 === "") ≡ false) × (has c.0 (entries cs) ≡ false) × IsKeys cs

  -- `clear` and the last `dequeue` may leave `_firstKey` behind: an empty queue does not fix it.
  abbrev pub Represents : Queue T → List (String × T) → Type 0
  Represents q [] = (q.map ≡ []) × (q.last_key ≡ none)
  Represents q (c ∷ cs) =
      (q.map ≡ entries (c ∷ cs))
      × (q.first_key ≡ some c.0)
      × (q.last_key ≡ some (last_cell c cs).0)
      × IsKeys (c ∷ cs)

  pub has-entries-append :
      (k : String) (d : String × T) (cs : List (String × T))
      → has k (entries cs) ≡ false
      → (d.0 === k) ≡ false
      → has k (entries (cs ++ d ∷ [])) ≡ false
  has-entries-append k d [] h e = ground arith
  has-entries-append k d (c ∷ cs) h e = ground (arith, has-entries-append k d cs)

  pub has-entries-tail :
      (k : String) (c : String × T) (cs : List (String × T))
      → has k (entries (c ∷ cs)) ≡ false
      → has k (entries cs) ≡ false
  has-entries-tail k c cs h = ground arith

  pub get-last_cell :
      (c : String × T) (cs : List (String × T))
      → IsKeys (c ∷ cs)
      → let d = last_cell c cs in
        get d.0 (entries (c ∷ cs)) ≡ some (record { item = d.1; key = d.0; next_key = none })
  get-last_cell c [] v = ground (arith, eq_iff c.0 c.0)
  get-last_cell c (d ∷ ds) v =
      let e = last_cell d ds in ground (arith, eq_iff c.0 e.0, get-last_cell d ds v.2)

  pub last_cell-named :
      (c : String × T) (cs : List (String × T))
      → IsKeys (c ∷ cs)
      → ((last_cell c cs).0 === "") ≡ false
  last_cell-named c [] v = v.0
  last_cell-named c (d ∷ ds) v = last_cell-named d ds v.2

  -- Relinking the last cell and adding one behind it gives the map of the longer list.
  pub set-last_cell :
      (c : String × T) (cs : List (String × T)) (d : String × T)
      → IsKeys (c ∷ cs)
      → let l = last_cell c cs in
        set l.0 (record { item = l.1; key = l.0; next_key = some d.0 }) (entries (c ∷ cs))
          ++ (d.0, record { item = d.1; key = d.0; next_key = none }) ∷ []
        ≡ entries ((c ∷ cs) ++ d ∷ [])
  set-last_cell c [] d v = ground (arith, eq_iff c.0 c.0)
  set-last_cell c (b ∷ bs) d v =
      let l = last_cell b bs in
      ground (arith, eq_iff c.0 l.0, get-last_cell b bs v.2, set-last_cell b bs d v.2)

  pub last_cell-append :
      (c : String × T) (cs : List (String × T)) (d : String × T) → last_cell c (cs ++ d ∷ []) ≡ d
  last_cell-append c [] d = refl
  last_cell-append c (b ∷ bs) d = last_cell-append b bs d

  pub IsKeys-append :
      (cs : List (String × T)) (d : String × T)
      → IsKeys cs
      → (d.0 === "") ≡ false
      → has d.0 (entries cs) ≡ false
      → IsKeys (cs ++ d ∷ [])
  IsKeys-append [] d v named fresh = (named, refl, tt)
  IsKeys-append (c ∷ cs) d v named fresh = (
    v.0,
    has-entries-append c.0 d cs v.1 (ground (arith, eq_iff c.0 d.0, eq_iff d.0 c.0)),
    IsKeys-append cs d v.2 named (has-entries-tail d.0 c cs fresh),
  )
