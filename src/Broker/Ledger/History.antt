-- ===== src/Broker/Ledger/History.antt =====
-- Ledgers as calls leave them: any sequence of calls, refused ones included.
use agent_whiteboard.Base.{
  ◌≡◌, refl, subst, Bool, false, List, [], ◌∷◌, Option, none, some, Str, str_eq_iff, str_eq_symm,
  is_some, push_back, lookup, insert, lookup-insert, lookup-delete, contains-append,
  Distinct-push_back, arith, length-delete_le, length-insert, Bool-cases, Option-cases, inl, inr,
}
use agent_whiteboard.Broker.Ledger.{
  Waiter, LedgerEntry, CommandLedger, Result, ok, err, new_ledger, begin, add_waiter, wait, settle,
  complete, give_up, abandon,
}
use agent_whiteboard.Broker.Ledger.Invariant.{Inv, new-Inv, set_pending-Inv, begin-Inv}

module _ {E : Type 0} where
  pub wait-Inv :
      (id : Str) (waiter : Waiter) (l l' : CommandLedger E)
      → Inv l
      → wait id waiter l ≡ ok l'
      → Inv l'
  unfolding wait add_waiter
  wait-Inv id waiter l l' v h = elim (Option-cases (lookup id l.entries)) [
    | inl e ↦ ground (arith, h, e)
    | inr (entry, e) ↦
        let entry' : LedgerEntry E = record entry { waiters = push_back entry.waiters waiter } in
        subst Inv {x = record l { entries = insert id entry' l.entries }} {y = l'}
          (ground (arith, h, e))
          (set_pending-Inv id entry' l v (ground (arith, h, e)) (ground (arith, h, e))
            (ground (arith, e, v.bound, length-insert id entry' l.entries)))
  ]

  module _ (command_of : E → Option Str) (encodes : E → Bool) where
    settle-Inv :
        (id : Str) (event : E) (entry : LedgerEntry E) (l : CommandLedger E)
        → Inv l
        → lookup id l.entries ≡ some entry
        → is_some entry.result ≡ false
        → Inv (record {
          entries = insert id (record entry { result = some event; waiters = [] }) l.entries;
          order = push_back l.order id;
        })
    settle-Inv id event entry l v found unset =
        let entry' : LedgerEntry E = record entry { result = some event; waiters = [] } in
        record {
          bound = ground (arith, v.bound, found, length-insert id entry' l.entries);
          ordered = λ j. ground (
            arith,
            v.ordered j,
            contains-append j l.order (id ∷ []),
            lookup-insert id j entry' l.entries,
            str_eq_iff id j,
            str_eq_symm id j,
          );
          distinct =
              Distinct-push_back l.order id (ground (arith, v.ordered id, found, unset)) v.distinct;
          settled =
              λ j e h r. ground (arith, h, r, v.settled j e, lookup-insert id j entry' l.entries);
        }

    pub complete-Inv :
        (id : Str) (event : E) (l l' : CommandLedger E) (waiters : List Waiter)
        → Inv l
        → complete command_of encodes id event l ≡ ok (waiters, l')
        → Inv l'
    unfolding complete settle
    complete-Inv id event l l' waiters v h = elim (Option-cases (lookup id l.entries)) [
      | inl e ↦ ground (arith, h, e)
      | inr (entry, e) ↦
          subst Inv
            {x = record {
              entries = insert id (record entry { result = some event; waiters = [] }) l.entries;
              order = push_back l.order id;
            }}
            {y = l'} (ground (arith, h, e)) (settle-Inv id event entry l v e (ground (arith, h, e)))
    ]

  give_up-Inv :
      (id : Str) (l : CommandLedger E) (found : Option (LedgerEntry E))
      → lookup id l.entries ≡ found
      → Inv l
      → Inv (give_up id l found).1
  unfolding give_up
  give_up-Inv id l none h v = v
  give_up-Inv id l (some entry) h v = elim (Bool-cases (is_some entry.result)) [
    | inl r ↦ rw r v
    | inr r ↦ rw r (record {
      bound = omega (arith, v.bound, length-delete_le id l.entries);
      ordered =
          λ j. ground (arith, v.ordered j, h, r, str_eq_iff id j, lookup-delete id j l.entries);
      distinct = v.distinct;
      settled = λ j e found. v.settled j e (ground (arith, found, lookup-delete id j l.entries));
    })
  ]

  pub abandon-Inv : (id : Str) (l : CommandLedger E) → Inv l → Inv (abandon id l).1
  unfolding abandon
  abandon-Inv id l v = give_up-Inv id l (lookup id l.entries) refl v

-- One call of the ledger, with the arguments that the conversation gives it.
pub data Call (E : Type 0) : Type 0 where
  begins : Str → Option Str → Call E
  waits : Str → Waiter → Call E
  completes : Str → E → Call E
  abandons : Str → Call E

module _ {E : Type 0} (command_of : E → Option Str) (encodes : E → Bool) where
  unfoldable pub after_wait : Result (CommandLedger E) → CommandLedger E → CommandLedger E
  after_wait (ok l') l = l'
  after_wait (err e) l = l

  unfoldable pub after_complete :
      Result (List Waiter × CommandLedger E) → CommandLedger E → CommandLedger E
  after_complete (ok (waiters, l')) l = l'
  after_complete (err e) l = l

  unfoldable pub step : Call E → CommandLedger E → CommandLedger E
  unfolding after_wait after_complete
  step (begins id fingerprint) l = (begin id fingerprint l).1
  step (waits id waiter) l = after_wait (wait id waiter l) l
  step (completes id event) l = after_complete (complete command_of encodes id event l) l
  step (abandons id) l = (abandon id l).1

  unfoldable pub run : List (Call E) → CommandLedger E → CommandLedger E
  run [] l = l
  run (c ∷ cs) l = run cs (step c l)

  after_wait-Inv :
      (r : Result (CommandLedger E)) (l : CommandLedger E)
      → ((l' : CommandLedger E) → r ≡ ok l' → Inv l')
      → Inv l
      → Inv (after_wait r l)
  unfolding after_wait
  after_wait-Inv (ok l') l h v = h l' refl
  after_wait-Inv (err e) l h v = v

  after_complete-Inv :
      (r : Result (List Waiter × CommandLedger E)) (l : CommandLedger E)
      → ((ws : List Waiter) (l' : CommandLedger E) → r ≡ ok (ws, l') → Inv l')
      → Inv l
      → Inv (after_complete r l)
  unfolding after_complete
  after_complete-Inv (ok (ws, l')) l h v = h ws l' refl
  after_complete-Inv (err e) l h v = v

  step-Inv : (c : Call E) (l : CommandLedger E) → Inv l → Inv (step c l)
  unfolding step
  step-Inv (begins id fingerprint) l v = begin-Inv id fingerprint l v
  step-Inv (waits id waiter) l v =
      after_wait-Inv (wait id waiter l) l (λ l'. wait-Inv id waiter l l' v) v
  step-Inv (completes id event) l v =
      after_complete-Inv (complete command_of encodes id event l) l
        (λ ws l'. complete-Inv command_of encodes id event l l' ws v) v
  step-Inv (abandons id) l v = abandon-Inv id l v

  run_from-Inv : (cs : List (Call E)) (l : CommandLedger E) → Inv l → Inv (run cs l)
  unfolding run
  run_from-Inv [] l v = v
  run_from-Inv (c ∷ cs) l v = run_from-Inv cs (step c l) (step-Inv c l v)

  -- After any sequence of calls on a new ledger, refused ones included, it holds at most 1024
  -- commands, its order is that of the completed ones, none of them twice, and nobody waits for a
  -- completed command.
  pub ledger_run-Inv : (cs : List (Call E)) → Inv (run cs new_ledger)
  ledger_run-Inv cs = run_from-Inv cs new_ledger new-Inv
