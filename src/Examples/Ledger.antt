-- ===== src/Examples/Ledger.antt =====
-- The command ledger of internal/agent/broker/commands.go on concrete commands.
use agent_whiteboard.Base.{
  List, ◌∷◌, ◌++◌, ◌≡◌, refl, [], none, some, false, Option, Str, str_eq, length, lookup, insert,
  true, Bool,
}
use agent_whiteboard.Broker.Ledger.{
  max_command_ledger_entries, Waiter, LedgerEntry, CommandLedger, command_new, ledger_full, ok,
  new_ledger, completed, begin, complete, make_room, evict_completed,
}
use agent_whiteboard.Broker.Ledger.Invariant.{Inv, new-Inv, begin-Inv}
use agent_whiteboard.Broker.Ledger.History.{
  Call, begins, waits, completes, abandons, run, ledger_run-Inv,
}
use agent_whiteboard.Broker.Ledger.Answers.{wait_all, complete-all}
use agent_whiteboard.Broker.Ledger.Room.{begin_room}
use agent_whiteboard.Examples.Data.{turn_a, turn_b}

-- Events are the identifiers of the commands whose results they are.
abbrev answered : Str → Option Str
answered id = some id

abbrev encodable : Str → Bool
encodable id = true

abbrev waiter_1 : Waiter
waiter_1 = record { attachment = 1; response = some 10 }

abbrev waiter_2 : Waiter
waiter_2 = record { attachment = 2; response = some 20 }

abbrev entry_a : LedgerEntry Str
entry_a = record { fingerprint = 7 ∷ []; result = none; waiters = [] }

abbrev ledger_a : CommandLedger Str
ledger_a = record { entries = (turn_a, entry_a) ∷ []; order = [] }

abbrev ledger_done : CommandLedger Str
ledger_done = record {
  entries = (turn_a, record { fingerprint = 7 ∷ []; result = some turn_a; waiters = [] }) ∷ [];
  order = turn_a ∷ [];
}

begin_a : begin turn_a (some (7 ∷ [])) (new_ledger {E = Str}) ≡ (command_new, ledger_a)
unfolding begin make_room evict_completed lookup insert
begin_a = refl

ledger_a-Inv : Inv ledger_a
unfolding begin make_room evict_completed lookup insert
ledger_a-Inv = begin-Inv turn_a (some (7 ∷ [])) new_ledger new-Inv

ledger_run-Inv_example : Inv (
    run answered encodable
      (begins turn_a (some (7 ∷ []))
        ∷ waits turn_a waiter_1
        ∷ completes turn_a turn_a
        ∷ begins turn_a (some [])
        ∷ begins turn_b none
        ∷ abandons turn_b
        ∷ [])
      new_ledger)
ledger_run-Inv_example = ledger_run-Inv answered encodable (
    begins turn_a (some (7 ∷ []))
    ∷ waits turn_a waiter_1
    ∷ completes turn_a turn_a
    ∷ begins turn_a (some [])
    ∷ begins turn_b none
    ∷ abandons turn_b
    ∷ [])

-- Another command is sent, waited for and given up before the completed one is sent again.
abbrev meanwhile : List (Call Str)
meanwhile =
    begins turn_b (some []) ∷ waits turn_b waiter_1 ∷ abandons turn_b ∷ completes turn_a turn_b ∷ []

complete-all_example :
    (l' l'' : CommandLedger Str) × (wait_all answered encodable turn_a
        (waiter_1 ∷ waiter_2 ∷ [])
        ledger_a
      ≡ ok l')
    × (complete answered encodable turn_a turn_a l' ≡ ok ([] ++ waiter_1 ∷ waiter_2 ∷ [], l''))
complete-all_example =
    complete-all answered encodable turn_a turn_a (waiter_1 ∷ waiter_2 ∷ []) entry_a ledger_a
      (unfold lookup str_eq in refl) refl refl (unfold str_eq in refl) refl

begin_room_example :
    let (d, l') = begin turn_b (some []) ledger_a in
    ((other : Str) (entry : LedgerEntry Str)
      → lookup other ledger_a.entries ≡ some entry
      → entry.result ≡ none
      → lookup other l'.entries ≡ some entry)
    × (d ≡ ledger_full
        → (length l'.entries ≡ max_command_ledger_entries)
          × ((j : Str) → completed (lookup j l'.entries) ≡ false))
begin_room_example = begin_room turn_b [] ledger_a ledger_a-Inv
