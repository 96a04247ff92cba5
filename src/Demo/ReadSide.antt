-- ===== src/Demo/ReadSide.antt =====
-- What the queries of the demo answer once the handlers of events have run: the projections of
-- demo/account/src behind the handlers of commands.
use moirae.Base.{
  ℕ, String, ◌===◌, if◌then◌else◌, false, some, [], ◌∷◌, ◌≡◌, refl, ap, ◌∙◌, arith, inr, eq_iff,
}
use moirae.Failure.{ok}
use moirae.Message.{Message}
use moirae.Aggregate.{Aggregate, apply, apply_all}
use moirae.Aggregate.History.{handle, extended}
use moirae.Publisher.{Wire}
use moirae.Store.{MemoryStore, merge_context, save, read_from_stream}
use moirae.Store.Loading.{IsPayloadOnly, loaded-stream_id}
use moirae.Store.RoundTrip.{save-merge_context}
use moirae.Demo.Integers.{ℤ, add, is_negative}
use moirae.Demo.Account.{
  Account, Payload, funds_data, account_class, new_event, funds_withdrawn, sum,
}
use moirae.Demo.Handlers.{
  handle-withdrawn, withdraw-eq, apply-handled, withdraw_funds, is_below_zero, transact,
}
use moirae.Demo.Projection.{
  AccountRow, Repositories, RepositoryLaws, complete, to_projection, on_account_event,
  find_account_by_id,
}

module _ (now : ℕ) (fresh : String → String) where
  account-IsPayloadOnly : IsPayloadOnly (account_class now fresh)
  unfolding handle account_class
  account-IsPayloadOnly e d s (n, u, t, p) = ground (arith, n, p)

  applied_once :
      (e : Message Payload) (a b : Aggregate Account Payload)
      → apply (account_class now fresh) e false a ≡ (ok tt, b)
      → apply_all (account_class now fresh) false (e ∷ []) a ≡ (ok tt, b)
  unfolding apply_all
  applied_once e a b h = ground (arith, h)

  module _ {R : Type 0} (wire : Wire Payload R) where
    -- A withdrawal that is committed, and the aggregate that is loaded then.
    withdrawn :
        (account_id uuid : String) (draw : ℕ → String) (command : Message Payload) (funds : ℤ)
        (a : Aggregate Account Payload) (s : MemoryStore Payload R)
        → (account_id === "") ≡ false
        → merge_context (account_class now fresh) account_id s ≡ ok a
        → is_below_zero (sum a.state.balance funds) ≡ false
        → let (r, s') = withdraw_funds now fresh wire account_id funds uuid draw command s in
          (r ≡ ok tt)
          × (c : Aggregate Account Payload) × (merge_context (account_class now fresh) account_id s'
              ≡ ok c)
          × (c.state ≡ record a.state { balance = sum a.state.balance funds })
    unfolding withdraw_funds transact
    withdrawn account_id uuid draw command funds a s named loads above =
        let e = new_event now funds_withdrawn uuid account_id (funds_data funds) in
        let state : Account = record a.state { balance = sum a.state.balance funds } in
        let handled = handle-withdrawn now fresh e funds a.state refl refl in
        let once =
          applied_once e a (extended (account_class now fresh) a e false state)
            (apply-handled now fresh e a state handled) in
        let (sent, r, _, c, again, st, _) =
          save-merge_context (account_class now fresh) wire account_id draw (some command) (e ∷ [])
            a (extended (account_class now fresh) a e false state) s account-IsPayloadOnly named
            (inr refl, tt) loads once in
        let eq = withdraw-eq now fresh e funds a refl refl in
        let b = extended (account_class now fresh) a e false state in
        let saved : (withdraw_funds now fresh wire account_id funds uuid draw command s).1
            ≡ (save wire draw (some command) b s).1 =
          ground (arith, loads, eq, above) in
        (
          ground (arith, loads, eq, above, r),
          c,
          ap (λ x. merge_context (account_class now fresh) account_id x) saved ∙ again,
          st,
        )

merged-stream_id :
    {R : Type 0} (now : ℕ) (fresh : String → String) (id : String) (s : MemoryStore Payload R)
    (c : Aggregate Account Payload)
    → merge_context (account_class now fresh) id s ≡ ok c
    → c.stream_id ≡ id
unfolding merge_context
merged-stream_id now fresh id s c =
    loaded-stream_id (account_class now fresh) (read_from_stream id s) id c

module _ {St : Type 0} (t : Repositories St) (laws : RepositoryLaws t) (now : ℕ)
    (fresh : String → String) {R : Type 0} where
  -- The handler of an event of an account saves the row of the account as its stream is now.
  on_account_event-saves :
      (row : AccountRow) (c : Aggregate Account Payload) (s : MemoryStore Payload R) (rows : St)
      → merge_context (account_class now fresh) row.id s ≡ ok c
      → c.state.name ≡ some row.name
      → c.state.balance ≡ some row.balance
      → c.state.created_at ≡ some row.created_at
      → let (r, rows') = on_account_event t now fresh s row.id rows in
        (r ≡ ok tt)
        × ((id : String)
            → t.find_account id rows'
              ≡ (if row.id === id then some row else t.find_account id rows))
  unfolding on_account_event
  on_account_event-saves row c s rows loads hn hb hc =
      let same = merged-stream_id now fresh row.id s c loads in
      let whole : to_projection c ≡ complete row c.state.orders c.updated_at =
        ground (arith, same, hn, hb, hc) in
      rw (loads, on_account_event)
        (rw whole (
          laws.save_account-ok row c.state.orders c.updated_at rows,
          λ id. laws.find_account-save row c.state.orders c.updated_at id rows,
        ))

  -- From the command to the query: a withdrawal that the balance of a created account covers is
  -- committed, and when the handler of its event has run, the query for the account answers with the sum
  -- of the two; what it answers for other accounts is as before. To handle the event again, as where it
  -- comes late or twice, changes no answer.
  pub withdraw_funds-visible :
      (wire : Wire Payload R) (account_id uuid name : String) (draw : ℕ → String)
      (command : Message Payload) (funds b : ℤ) (created : ℕ) (a : Aggregate Account Payload)
      (s : MemoryStore Payload R) (rows : St)
      → (account_id === "") ≡ false
      → merge_context (account_class now fresh) account_id s ≡ ok a
      → a.state.name ≡ some name
      → a.state.balance ≡ some b
      → a.state.created_at ≡ some created
      → is_negative (add b funds) ≡ false
      → let (r, s') = withdraw_funds now fresh wire account_id funds uuid draw command s in
        let (r', rows') = on_account_event t now fresh s' account_id rows in
        let (r'', rows'') = on_account_event t now fresh s' account_id rows' in
        let row : AccountRow = record {
          id = account_id;
          name = name;
          balance = add b funds;
          created_at = created;
        } in
        (r ≡ ok tt)
        × (r' ≡ ok tt)
        × (find_account_by_id t account_id rows' ≡ ok row)
        × ((id : String)
            → (account_id === id) ≡ false
            → find_account_by_id t id rows' ≡ find_account_by_id t id rows)
        × (r'' ≡ ok tt)
        × ((id : String) → find_account_by_id t id rows'' ≡ find_account_by_id t id rows')
  unfolding find_account_by_id
  withdraw_funds-visible wire account_id uuid name draw command funds b created a s rows named loads
        hn hb hc covered =
      let row : AccountRow = record {
        id = account_id;
        name = name;
        balance = add b funds;
        created_at = created;
      } in
      let s' = (withdraw_funds now fresh wire account_id funds uuid draw command s).1 in
      let (r, c, again, st) =
        withdrawn now fresh wire account_id uuid draw command funds a s named loads
          (rw hb covered) in
      let cn : c.state.name ≡ some name = ap (λ x. x.name) st ∙ hn in
      let cb : c.state.balance ≡ some (add b funds) = ap (λ x. x.balance) st ∙ rw hb refl in
      let cc' : c.state.created_at ≡ some created = ap (λ x. x.created_at) st ∙ hc in
      let rows' = (on_account_event t now fresh s' account_id rows).1 in
      let (r', f) = on_account_event-saves row c s' rows again cn cb cc' in
      let (r'', f') = on_account_event-saves row c s' rows' again cn cb cc' in
      (
        r,
        r',
        ground (arith, f account_id, eq_iff account_id account_id),
        λ id other. ground (arith, f id, other),
        r'',
        λ id. ground (arith, f id, f' id),
      )
