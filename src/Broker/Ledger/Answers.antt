-- ===== src/Broker/Ledger/Answers.antt =====
-- Who is answered when a command is completed.
use agent_whiteboard.Base.{
  ◌≡◌, refl, sym, ◌∙◌, ap, Bool, true, false, List, [], ◌∷◌, ◌++◌, append_assoc, append-nil, Option,
  some, Str, str_eq_refl, is_some, all, push_back, lookup, insert, lookup-insert, arith,
}
use agent_whiteboard.Broker.Ledger.{
  Waiter, LedgerEntry, CommandLedger, Result, ok, err, add_waiter, wait, settle, complete, answers,
}

module _ {E : Type 0} (command_of : E → Option Str) (encodes : E → Bool) where
  -- The entry of a command that was completed.
  pub completed_entry :
      (id : Str) (event : E) (entry : LedgerEntry E) (l l' : CommandLedger E)
      (waiters : List Waiter)
      → lookup id l.entries ≡ some entry
      → complete command_of encodes id event l ≡ ok (waiters, l')
      → lookup id l'.entries ≡ some (record entry { result = some event; waiters = [] })
  unfolding complete settle
  completed_entry id event entry l l' waiters found h = ground (
    arith,
    h,
    found,
    str_eq_refl id,
    lookup-insert id id (record entry { result = some event; waiters = [] }) l.entries,
  )

  -- The calls of `wait` for a command, in turn; the first refused one ends them.
  unfoldable pub wait_all : Str → List Waiter → CommandLedger E → Result (CommandLedger E)
  wait_all id [] l = ok l
  wait_all id (w ∷ ws) l = elim (wait id w l) [ ok l' ↦ wait_all id ws l' | err e ↦ err e ]

  wait-pending :
      (id : Str) (w : Waiter) (entry : LedgerEntry E) (l : CommandLedger E)
      → lookup id l.entries ≡ some entry
      → is_some entry.result ≡ false
      → is_some w.response ≡ true
      → wait id w l
        ≡ ok (record l {
          entries = insert id (record entry { waiters = push_back entry.waiters w }) l.entries;
        })
  unfolding wait add_waiter
  wait-pending id w entry l found unset answered = ground (arith, found, unset, answered)

  abbrev settled_ledger : Str → E → LedgerEntry E → CommandLedger E → CommandLedger E
  settled_ledger id event entry l = record {
    entries = insert id (record entry { result = some event; waiters = [] }) l.entries;
    order = push_back l.order id;
  }

  complete-pending :
      (id : Str) (event : E) (entry : LedgerEntry E) (l : CommandLedger E)
      → lookup id l.entries ≡ some entry
      → is_some entry.result ≡ false
      → answers id (command_of event) ≡ true
      → encodes event ≡ true
      → complete command_of encodes id event l ≡ ok (entry.waiters, settled_ledger id event entry l)
  unfolding complete settle
  complete-pending id event entry l found unset mine encoded =
      ground (arith, found, unset, mine, encoded)

  -- While a command is pending, every waiter with a response channel is taken in, and completing the
  -- command with its encodable result gives back the waiters it had and these, each once, in the order
  -- in which they came.
  pub complete-all :
      (id : Str) (event : E) (ws : List Waiter) (entry : LedgerEntry E) (l : CommandLedger E)
      → lookup id l.entries ≡ some entry
      → is_some entry.result ≡ false
      → all (λ (w : Waiter). is_some w.response) ws ≡ true
      → answers id (command_of event) ≡ true
      → encodes event ≡ true
      → (l' l'' : CommandLedger E) × (wait_all id ws l ≡ ok l')
        × (complete command_of encodes id event l' ≡ ok (entry.waiters ++ ws, l''))
  unfolding wait_all
  complete-all id event [] entry l found unset answered mine encoded = (
    l,
    settled_ledger id event entry l,
    refl,
    complete-pending id event entry l found unset mine encoded
        ∙ ap (λ ws. ok (ws, settled_ledger id event entry l)) (sym (append-nil entry.waiters)),
  )
  complete-all id event (w ∷ ws) entry l found unset answered mine encoded =
      let entry' : LedgerEntry E = record entry { waiters = push_back entry.waiters w } in
      let l1 : CommandLedger E = record l { entries = insert id entry' l.entries } in
      let found' : lookup id l1.entries ≡ some entry' =
        ground (arith, lookup-insert id id entry' l.entries, str_eq_refl id) in
      let (l', l'', p, q) =
        complete-all id event ws entry' l1 found' unset (ground (arith, answered)) mine encoded in
      (
        l',
        l'',
        ap (λ (r : Result (CommandLedger E)). elim r [ ok l' ↦ wait_all id ws l' | err e ↦ err e ])
              (wait-pending id w entry l found unset (ground (arith, answered)))
            ∙ p,
        q ∙ ap (λ us. ok (us, l'')) (append_assoc entry.waiters (w ∷ []) ws),
      )
