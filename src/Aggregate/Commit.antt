-- ===== src/Aggregate/Commit.antt =====
-- `uncommittedEventHistory` and `commit` of aggregate-root.class.ts: which events a commit hands over.
use mathlib.Core.List.{append-nil, append_assoc}
use moirae.Base.{
  ℕ, zero, suc, ◌≤◌, String, if◌then◌else◌, Bool, true, false, Option, some, List, [], ◌∷◌, ◌++◌,
  map, length, take, drop, ◌≡◌, refl, arith, length-append, ◌∙◌, sym, ap, drop_all, drop-append,
}
use moirae.Failure.{ok, err, unavailable_commit}
use moirae.Message.{Message, or_else}
use moirae.Aggregate.Defs.{
  Class, Aggregate, apply, apply_all, uncommitted_event_history, construct, commit, stamp,
  uncommitted_start,
}
use moirae.Aggregate.History.{placed, apply-ok}

drop-take-append :
    {A : Type 0} (n : ℕ) (xs ys : List A) → n ≤ length xs → drop n (take n xs ++ ys) ≡ ys
drop-take-append zero xs ys h = refl
drop-take-append (suc n) [] ys h = absurd (omega arith)
drop-take-append (suc n) (x ∷ xs) ys h = drop-take-append n xs ys (omega arith)

module _ {S D : Type 0} where
  abbrev pub start : Aggregate S D → ℕ
  start a = uncommitted_start a.last_committed_index

  -- The mark of the last committed event lies within the history.
  abbrev pub IsMarked : Aggregate S D → Type 0
  IsMarked a = start a ≤ length a.event_history

  pub uncommitted-drop :
      (a : Aggregate S D) → uncommitted_event_history a ≡ drop (start a) a.event_history
  unfolding uncommitted_event_history
  uncommitted-drop a = ground (arith, drop_all a.event_history (start a))

module _ {S D : Type 0} (cls : Class S D) where
  -- An event from the store leaves nothing uncommitted.
  apply-stored :
      (a b : Aggregate S D) (e : Message D)
      → apply cls e true a ≡ (ok tt, b)
      → IsMarked b × (drop (start b) b.event_history ≡ []) × (b.stream_id ≡ a.stream_id)
  apply-stored a b e h =
      let (s, q, eq) = apply-ok cls a b e true h in
      let event = placed cls a e in
      rw eq (
        omega (arith, length-append a.event_history (event ∷ [])),
        drop_all (a.event_history ++ event ∷ []) _
            (omega (arith, length-append a.event_history (event ∷ []))),
        refl,
      )

  -- A new event joins the uncommitted ones.
  apply-new :
      (a b : Aggregate S D) (e : Message D)
      → IsMarked a
      → apply cls e false a ≡ (ok tt, b)
      → IsMarked b
        × (drop (start b) b.event_history ≡ drop (start a) a.event_history ++ placed cls a e ∷ [])
        × (b.stream_id ≡ a.stream_id)
  apply-new a b e m h =
      let (s, q, eq) = apply-ok cls a b e false h in
      let event = placed cls a e in
      rw eq (
        omega (arith, length-append a.event_history (event ∷ [])),
        drop-append (start a) a.event_history (event ∷ []) m,
        refl,
      )

  -- A run of calls that does not throw does not throw in its first call.
  pub apply_all-ok :
      (from_history : Bool) (e : Message D) (es : List (Message D)) (a b : Aggregate S D)
      → apply_all cls from_history (e ∷ es) a ≡ (ok tt, b)
      → (c : Aggregate S D) × (apply cls e from_history a ≡ (ok tt, c))
        × (apply_all cls from_history es c ≡ (ok tt, b))
  unfolding apply_all
  apply_all-ok from_history e es a b h =
      let c = (apply cls e from_history a).1 in (c, ground arith, ground arith)

  abbrev pub place : String → Message D → Message D
  place id event = record event { stream_id = or_else event.stream_id (some id) }

  pub apply_all-stored :
      (es : List (Message D)) (a b : Aggregate S D)
      → IsMarked a
      → drop (start a) a.event_history ≡ []
      → apply_all cls true es a ≡ (ok tt, b)
      → IsMarked b × (drop (start b) b.event_history ≡ []) × (b.stream_id ≡ a.stream_id)
  unfolding apply_all
  apply_all-stored [] a b m u h = rw (← ap (λ p. p.1) h) (m, u, refl)
  apply_all-stored (e ∷ es) a b m u h =
      let (c, first, rest) = apply_all-ok true e es a b h in
      let (mc, uc, ic) = apply-stored a c e first in
      let (mb, ub, ib) = apply_all-stored es c b mc uc rest in (mb, ub, ib ∙ ic)

  pub apply_all-new :
      (es : List (Message D)) (a b : Aggregate S D)
      → IsMarked a
      → apply_all cls false es a ≡ (ok tt, b)
      → IsMarked b
        × (drop (start b) b.event_history
            ≡ drop (start a) a.event_history ++ map (place a.stream_id) es)
  unfolding apply_all
  apply_all-new [] a b m h =
      rw (← ap (λ p. p.1) h) (m, sym (append-nil (drop (start a) a.event_history)))
  apply_all-new (e ∷ es) a b m h =
      let (c, first, rest) = apply_all-ok false e es a b h in
      let (mc, uc, ic) = apply-new a c e m first in
      let (mb, ub) = apply_all-new es c b mc rest in
      (
        mb,
        ub
            ∙ (rw (uc, ic)
                (append_assoc (drop (start a) a.event_history) (placed cls a e ∷ [])
                  (map (place a.stream_id) es))),
      )

  -- When the stored events and then some new ones were applied to a new aggregate without a throw,
  -- exactly the new events are uncommitted, in order and each with a stream.
  pub uncommitted-apply_all :
      (id : String) (stored new : List (Message D)) (a b : Aggregate S D)
      → apply_all cls true stored (construct cls id) ≡ (ok tt, a)
      → apply_all cls false new a ≡ (ok tt, b)
      → uncommitted_event_history b ≡ map (place id) new
  unfolding construct
  uncommitted-apply_all id stored new a b h k =
      let (m, u, i) = apply_all-stored stored (construct cls id) a (omega arith) refl h in
      let (_, v) = apply_all-new new a b m k in uncommitted-drop b ∙ v ∙ rw (u, i) refl

module _ {S D : Type 0} where
  -- The aggregate after a commit.
  abbrev pub committed : Option (Message D) → Aggregate S D → Aggregate S D
  committed command a = record a {
    event_history =
        take (start a) a.event_history ++ map (stamp command) (uncommitted_event_history a);
  }

  -- Without a commit function nothing happens; with one, exactly the uncommitted events are handed
  -- over, each linked to the command, and they alone change in the history.
  pub commit-eq :
      (command : Option (Message D)) (a : Aggregate S D)
      → commit command a ≡ (
          if a.commit_set
          then (ok (map (stamp command) (uncommitted_event_history a)), committed command a)
          else (err unavailable_commit, a))
  unfolding commit
  commit-eq command a = ground arith

  pub commit-ok :
      (command : Option (Message D)) (a : Aggregate S D)
      → a.commit_set ≡ true
      → commit command a
        ≡ (ok (map (stamp command) (uncommitted_event_history a)), committed command a)
  commit-ok command a set = ground (arith, commit-eq command a)

  uncommitted-committed :
      (command : Option (Message D)) (a : Aggregate S D)
      → IsMarked a
      → uncommitted_event_history (committed command a)
        ≡ map (stamp command) (uncommitted_event_history a)
  uncommitted-committed command a m =
      uncommitted-drop (committed command a) ∙ drop-take-append (start a) a.event_history _ m

  -- With a commit function, and the mark of the last committed event within the history: a second commit
  -- hands the same events over again, as the mark does not move.
  pub commit_again :
      (command later : Option (Message D)) (a : Aggregate S D)
      → a.commit_set ≡ true
      → IsMarked a
      → (commit later (commit command a).1).0
        ≡ ok (map (stamp later) (map (stamp command) (uncommitted_event_history a)))
  commit_again command later a set m =
      ap (λ r. (commit later r.1).0) (commit-ok command a set)
      ∙ ap (λ r. r.0) (commit-ok later (committed command a) set)
      ∙ ap (λ es. ok (map (stamp later) es)) (uncommitted-committed command a m)
