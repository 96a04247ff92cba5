-- ===== src/Rabbit/Routing.antt =====
-- Which queue a command that is published for a domain goes to.
use Prim.Native.String.{◌++◌}
use text.Mathlib.TextLemmas.{append_cancel_left}
use mathlib.Core.Path.{subst}
use mathlib.Core.List.{◌++◌ as append, append-nil}
use moirae.Base.{
  String, ◌===◌, ◌&&◌, if◌then◌else◌, false, none, some, List, [], ◌∷◌, ◌≡◌, refl, arith, ap, ◌∙◌,
  sym, eq_iff, All, inl, inr, Bool-cases,
}
use moirae.Base.Dict.{Dict, get, set, get-set}
use moirae.Base.Sets.{contains}
use moirae.Rabbit.Channel.{
  ChannelCall, create_channel, prefetch, assert_exchange, assert_queue, bind_queue, unbind_queue,
  consume, cancel, close, ack, reject, publish,
}
use moirae.Rabbit.Publisher.{
  RabbitPublisher, WorkQueue, command_publisher, printed, generate_work_queue, work_exchange,
  called,
}
use moirae.Rabbit.Bootstrap.{
  name_queues, consume_queue, consume_all, open_work, open_responses, handle_bootstrap,
}

-- The queues that calls bind to an exchange under a key: a topic exchange takes a message with the key to
-- these, as the domains hold none of the characters of a pattern.
unfoldable pub bound : String → String → List ChannelCall → List String
bound exchange key [] = []
bound exchange key (bind_queue q x k ∷ cs) =
    let rest = bound exchange key cs in if x === exchange && k === key then q ∷ rest else rest
bound exchange key (_ ∷ cs) = bound exchange key cs

bound-append :
    (x k : String) (cs ds : List ChannelCall)
    → bound x k (append cs ds) ≡ append (bound x k cs) (bound x k ds)
unfolding bound
bound-append x k [] ds = refl
bound-append x k (create_channel ∷ cs) ds = bound-append x k cs ds
bound-append x k (prefetch n ∷ cs) ds = bound-append x k cs ds
bound-append x k (assert_exchange e t ∷ cs) ds = bound-append x k cs ds
bound-append x k (assert_queue q b ∷ cs) ds = bound-append x k cs ds
bound-append x k (bind_queue q e j ∷ cs) ds = ground (arith, bound-append x k cs ds)
bound-append x k (unbind_queue q e j ∷ cs) ds = bound-append x k cs ds
bound-append x k (consume q ∷ cs) ds = bound-append x k cs ds
bound-append x k (cancel q ∷ cs) ds = bound-append x k cs ds
bound-append x k (close ∷ cs) ds = bound-append x k cs ds
bound-append x k (ack n ∷ cs) ds = bound-append x k cs ds
bound-append x k (reject n b ∷ cs) ds = bound-append x k cs ds
bound-append x k (publish e j c ∷ cs) ds = bound-append x k cs ds

-- A `Set` holds a domain once.
abbrev pub IsDistinct : List String → Type 0
IsDistinct [] = Unit
IsDistinct (d ∷ ds) = (contains d ds ≡ false) × IsDistinct ds

module _ {D R : Type 0} where
  -- The work queue of a domain has its name.
  abbrev HasName : RabbitPublisher D R → String → Type 0
  HasName p d =
      (q : WorkQueue) × (get d p.work_queues ≡ some q) × (q.queue_name ≡ generate_work_queue d p)

  abbrev update : RabbitPublisher D R → Dict WorkQueue → List ChannelCall → RabbitPublisher D R
  update p qs cs = record p { work_queues = qs; calls = cs }

  rename-All :
      (p : RabbitPublisher D R) (cs : List ChannelCall) (d : String) (q : WorkQueue)
      (ds : List String)
      → q.queue_name ≡ generate_work_queue d p
      → All (HasName p) ds
      → All (HasName (update p (set d q p.work_queues) cs)) ds
  unfolding generate_work_queue
  rename-All p cs d q [] named all = tt
  rename-All p cs d q (e ∷ es) named ((r, found, same), rest) = (
    elim (Bool-cases (d === e)) [
      | inl yes_it_is ↦ (
        q,
        ground (arith, get-set d e q p.work_queues, yes_it_is),
        ground (arith, named, yes_it_is, eq_iff d e),
      )
      | inr other ↦ (r, ground (arith, get-set d e q p.work_queues, other, found), same)
    ],
    rename-All p cs d q es named rest,
  )

  bound-consume_all :
      (tag : String → String) (k : String) (ds : List String) (p : RabbitPublisher D R)
      → IsDistinct ds
      → All (HasName p) ds
      → bound (work_exchange p) k (consume_all tag ds p).calls
        ≡ append
            (bound (work_exchange p) k p.calls)
            (if contains k ds then generate_work_queue k p ∷ [] else [])
  unfolding bound consume_all generate_work_queue
  bound-consume_all tag k [] p once all = sym (append-nil (bound (work_exchange p) k p.calls))
  bound-consume_all tag k (d ∷ ds) p (new, once) ((q, found, named), rest) =
      let x = work_exchange p in
      let more =
        assert_queue q.queue_name false ∷ bind_queue q.queue_name x d ∷ consume q.queue_name ∷ [] in
      let q' : WorkQueue = record q { consumer_tag = some (tag q.queue_name) } in
      let p' = consume_queue tag d (some q) p in
      let here : bound x k more ≡ (if d === k then generate_work_queue d p ∷ [] else []) =
        ground (arith, named, eq_iff x x) in
      let calls : bound x k p'.calls ≡ append (bound x k p.calls) (bound x k more) =
        bound-append x k p.calls more in
      let later = bound-consume_all tag k ds p' once (rename-All p p'.calls d q' ds named rest) in
      let step : consume_all tag (d ∷ ds) p ≡ consume_all tag ds p' =
        ap (λ o. consume_all tag ds (consume_queue tag d o p)) found in
      ap (λ r. bound x k r.calls) step
      ∙ later
      ∙ ground (
        arith,
        calls,
        here,
        new,
        eq_iff d k,
        append-nil (bound x k p.calls),
        append-nil (append (bound x k p.calls) (generate_work_queue d p ∷ [])),
      )

  name_queues-HasName :
      (ds : List String) (p : RabbitPublisher D R)
      → IsDistinct ds
      → All (HasName (name_queues ds p)) ds
        × ((d : String)
            → contains d ds ≡ false
            → get d (name_queues ds p).work_queues ≡ get d p.work_queues)
        × (name_queues ds p ≡ record p { work_queues = (name_queues ds p).work_queues })
  unfolding generate_work_queue
  name_queues-HasName [] p once = (tt, λ d out. refl, refl)
  name_queues-HasName (d ∷ ds) p (new, once) =
      let q : WorkQueue = record { consumer_tag = none; queue_name = generate_work_queue d p } in
      let p' : RabbitPublisher D R = record p { work_queues = set d q p.work_queues } in
      let (all, kept, same) = name_queues-HasName ds p' once in
      (
        (
          (
            q,
            ground (arith, kept d new, get-set d d q p.work_queues, eq_iff d d),
            sym (ap (generate_work_queue d) same),
          ),
          all,
        ),
        λ e out. ground (arith, kept e, get-set d e q p.work_queues, eq_iff d e, out),
        same,
      )

  -- What is bound when the publisher of commands has started, with a set of domains and channels that were
  -- given no calls: under each domain of the application exactly the one work queue of the domain, and
  -- under no other key any queue. Work queues of different domains have different names.
  pub handle_bootstrap-bound :
      (sha1 : List String → String) (tag : String → String) (k : String) (p : RabbitPublisher D R)
      → p.role ≡ command_publisher
      → p.calls ≡ []
      → IsDistinct p.domains
      → (bound (work_exchange p) k (handle_bootstrap sha1 tag p).calls
          ≡ (if contains k p.domains then generate_work_queue k p ∷ [] else []))
        × ((j : String) → generate_work_queue j p ≡ generate_work_queue k p → j ≡ k)
  unfolding handle_bootstrap open_work open_responses bound generate_work_queue
  handle_bootstrap-bound sha1 tag k p role fresh once =
      let x = work_exchange p in
      let opened = create_channel ∷ prefetch 1 ∷ assert_exchange x "topic" ∷ [] in
      let q = called opened p in
      let (all, kept, same) = name_queues-HasName p.domains q once in
      let n = name_queues p.domains q in
      let n' : RabbitPublisher D R = record q { work_queues = n.work_queues } in
      let all' : All (HasName n') p.domains = subst (λ r. All (HasName r) p.domains) same all in
      let work = bound-consume_all tag k p.domains n' once all' in
      let starts : handle_bootstrap sha1 tag p ≡ consume_all tag p.domains n =
        ground (arith, role) in
      let none_yet : bound x k (append p.calls opened) ≡ [] =
        bound-append x k p.calls opened ∙ ground (arith, fresh) in
      (
        ap (λ r. bound x k r.calls) (starts ∙ ap (consume_all tag p.domains) same)
            ∙ work
            ∙ ground (arith, none_yet),
        λ j e. append_cancel_left "-" j k (
            append_cancel_left (printed p.role) ("-" ++ j) ("-" ++ k) (
              append_cancel_left "-work-" (printed p.role ++ ("-" ++ j))
                (printed p.role ++ ("-" ++ k))
                (append_cancel_left p.namespace_root ("-work-" ++ (printed p.role ++ ("-" ++ j)))
                  ("-work-" ++ (printed p.role ++ ("-" ++ k))) e))),
      )
