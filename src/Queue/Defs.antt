-- ===== src/Queue/Defs.antt =====
-- moirae/core/lib/classes/queue.class.ts: a FIFO queue as a linked list of entries in a `Map`.
-- `randomUUID` is the argument `uuid` of `enqueue`.
use moirae.Base.Dict.{Dict, get, set, delete, size}
use moirae.Base.{ℕ, String, ◌===◌, ◌==◌, if◌then◌else◌, Bool, false, Option, none, some, [], truthy}
use moirae.Failure.{ok, err, type_error, Action, ◌>>◌, modify}

pub record QueueItem (T : Type 0) : Type 0 where
  pub item : T
  pub key : String
  pub next_key : Option String

pub record Queue (T : Type 0) : Type 0 where
  pub first_key : Option String
  pub last_key : Option String
  pub map : Dict (QueueItem T)

-- `map.get(key)` at a key that may be `undefined`.
abbrev find {ℓ} : {V : Type ℓ} → Option String → Dict V → Option V
find none m = none
find (some k) m = get k m

abbrev is_key : Option String → String → Bool
is_key none k = false
is_key (some j) k = j === k

module _ {T : Type 0} where
  unfoldable pub empty : Queue T
  empty = record { first_key = none; last_key = none; map = [] }

  unfoldable pub clear : Queue T → Queue T
  clear q = record q { map = []; last_key = none }

  -- `get size()`
  unfoldable pub queue_size : Queue T → ℕ
  queue_size q = size q.map

  take_item : Option (QueueItem T) → Queue T → Option T × Queue T
  take_item none q = (none, q)
  take_item (some entry) q = (
    some entry.item,
    record {
      first_key = entry.next_key;
      last_key = if is_key q.last_key entry.key then none else q.last_key;
      map = delete entry.key q.map;
    },
  )

  unfoldable pub dequeue : Queue T → Option T × Queue T
  unfolding take_item
  dequeue q = if truthy q.first_key then take_item (find q.first_key q.map) q else (none, q)

  -- `prevLast.nextKey = key; this._map.set(prevLast.key, prevLast)`
  link : String → Option (QueueItem T) → Action (Queue T) (Unit {0})
  link key none q = (err type_error, q)
  link key (some prev) q =
      (ok tt, record q { map = set prev.key (record prev { next_key = some key }) q.map })

  link_last : String → Action (Queue T) (Unit {0})
  unfolding link
  link_last key q = if truthy q.last_key then link key (find q.last_key q.map) q else (ok tt, q)

  abbrev start : String → Queue T → Queue T
  start key q = if size q.map == 0 then record q { first_key = some key } else q

  abbrev push : String → T → Queue T → Queue T
  push key item q = record q {
    last_key = some key;
    map = set key (record { item = item; key = key; next_key = none }) q.map;
  }

  unfoldable pub enqueue : String → T → Action (Queue T) (Unit {0})
  unfolding link_last
  enqueue uuid item = do modify (start uuid); link_last uuid; modify (push uuid item)
