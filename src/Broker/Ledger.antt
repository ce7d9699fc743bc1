-- ===== src/Broker/Ledger.antt =====
-- internal/agent/broker/commands.go: the ledger by which a command that a browser sends again is
-- answered once. `E` is the type of events; `command_of` gives the command that a command result
-- answers, none for other events, and `encodes` stands for `protocol.EncodeEvent` without error.
-- A response channel is a number, none for nil. The fingerprint comes as `commandFingerprint` gave it.
pub mod Answers
pub mod History
pub mod Invariant
pub mod Room
pub mod Repeats
use agent_whiteboard.Base.{
  ℕ, Bool, true, false, not, ◌&&◌, ◌||◌, List, [], ◌∷◌, Option, none, some, Str, str_eq, length,
  is_some, ltb, leb, push_back, lookup, insert, delete, if◌then◌else◌,
}

abbrev pub max_command_ledger_entries : ℕ
max_command_ledger_entries = 1024

pub record Waiter : Type 0 where
  pub attachment : ℕ
  pub response : Option ℕ

pub record LedgerEntry (E : Type 0) : Type 0 where
  pub fingerprint : Str
  pub result : Option E
  pub waiters : List Waiter

pub record CommandLedger (E : Type 0) : Type 0 where
  pub entries : List (Str × LedgerEntry E)
  pub order : List Str

-- `commandDisposition`, with the event of a completed command and the two errors of `begin`.
pub data Disposition (E : Type 0) : Type 0 where
  command_new command_pending command_conflict invalid_command ledger_full : Disposition E
  command_completed : E → Disposition E

pub data LedgerError : Type 0 where
  not_pending invalid_result unencodable : LedgerError

pub data Result {ℓ} (A : Type ℓ) : Type ℓ where
  ok : A → Result A
  err : LedgerError → Result A

-- Whether the event is the result of the command.
abbrev pub answers : Str → Option Str → Bool
answers id none = false
answers id (some command) = str_eq command id

module _ {E : Type 0} where
  abbrev pub new_ledger : CommandLedger E
  new_ledger = record { entries = []; order = [] }

  -- An entry that there is and that has, or has not, a result.
  abbrev pub completed : Option (LedgerEntry E) → Bool
  completed none = false
  completed (some entry) = is_some entry.result

  abbrev pub pending : Option (LedgerEntry E) → Bool
  pending none = false
  pending (some entry) = not (is_some entry.result)

  -- The loop of `makeRoom` over the order of completion.
  unfoldable pub evict_completed : List Str → List (Str × LedgerEntry E) → CommandLedger E
  evict_completed [] entries = record { entries = entries; order = [] }
  evict_completed (oldest ∷ order) entries =
      if leb max_command_ledger_entries (length entries)
      then evict_completed order
          (if completed (lookup oldest entries) then delete oldest entries else entries)
      else record { entries = entries; order = oldest ∷ order }

  -- `makeRoom`.
  unfoldable pub make_room : CommandLedger E → Bool × CommandLedger E
  make_room ledger =
      let roomy = evict_completed ledger.order ledger.entries in
      (ltb (length roomy.entries) max_command_ledger_entries, roomy)

  begin_absent : Str → Str → Bool × CommandLedger E → Disposition E × CommandLedger E
  begin_absent id fingerprint (false, ledger) = (ledger_full, ledger)
  begin_absent id fingerprint (true, ledger) = (
    command_new,
    record ledger {
      entries =
          insert id (record { fingerprint = fingerprint; result = none; waiters = [] })
            ledger.entries;
    },
  )

  begin_present : Str → LedgerEntry E → Disposition E
  begin_present fingerprint entry =
      if not (str_eq entry.fingerprint fingerprint)
      then command_conflict
      else elim entry.result [ none ↦ command_pending | some event ↦ command_completed event ]

  begin_at : Str → Str → CommandLedger E → Option (LedgerEntry E) → Disposition E × CommandLedger E
  begin_at id fingerprint ledger (some entry) = (begin_present fingerprint entry, ledger)
  begin_at id fingerprint ledger none = begin_absent id fingerprint (make_room ledger)

  -- `begin`.
  unfoldable pub begin : Str → Option Str → CommandLedger E → Disposition E × CommandLedger E
  unfolding begin_at begin_absent begin_present
  begin id none ledger = (invalid_command, ledger)
  begin id (some fingerprint) ledger = begin_at id fingerprint ledger (lookup id ledger.entries)

  unfoldable pub add_waiter :
      Str → Waiter → CommandLedger E → Option (LedgerEntry E) → Result (CommandLedger E)
  add_waiter id waiter ledger none = err not_pending
  add_waiter id waiter ledger (some entry) =
      if is_some entry.result || not (is_some waiter.response)
      then err not_pending
      else ok (record ledger {
        entries =
            insert id (record entry { waiters = push_back entry.waiters waiter }) ledger.entries;
      })

  -- `wait`.
  unfoldable pub wait : Str → Waiter → CommandLedger E → Result (CommandLedger E)
  unfolding add_waiter
  wait id waiter ledger = add_waiter id waiter ledger (lookup id ledger.entries)

  module _ (command_of : E → Option Str) (encodes : E → Bool) where
    unfoldable pub settle :
        Str → E → CommandLedger E → Option (LedgerEntry E) → Result (List Waiter × CommandLedger E)
    settle id event ledger none = err not_pending
    settle id event ledger (some entry) =
        if is_some entry.result
        then err not_pending
        else if not (answers id (command_of event))
        then err invalid_result
        else if not (encodes event)
        then err unencodable
        else ok (
          entry.waiters,
          record {
            entries = insert id (record entry { result = some event; waiters = [] }) ledger.entries;
            order = push_back ledger.order id;
          },
        )

    -- `complete`.
    unfoldable pub complete : Str → E → CommandLedger E → Result (List Waiter × CommandLedger E)
    unfolding settle
    complete id event ledger = settle id event ledger (lookup id ledger.entries)

  unfoldable pub give_up :
      Str → CommandLedger E → Option (LedgerEntry E) → List Waiter × CommandLedger E
  give_up id ledger none = ([], ledger)
  give_up id ledger (some entry) =
      if is_some entry.result
      then ([], ledger)
      else (entry.waiters, record ledger { entries = delete id ledger.entries })

  -- `abandon`.
  unfoldable pub abandon : Str → CommandLedger E → List Waiter × CommandLedger E
  unfolding give_up
  abandon id ledger = give_up id ledger (lookup id ledger.entries)
