-- ===== src/Broker/Ledger/Room.antt =====
-- What the ledger gives up for a new command, and when it refuses one.
use agent_whiteboard.Base.{
  ◌≡◌, refl, ap, true, false, List, [], ◌∷◌, Option, none, some, Str, str_eq_iff, length, leb,
  lookup, delete, lookup-insert, lookup-delete, contains, arith,
}
use agent_whiteboard.Broker.Ledger.{
  max_command_ledger_entries, LedgerEntry, CommandLedger, ledger_full, completed, evict_completed,
  make_room, begin_absent, begin_present, begin_at, begin,
}
use agent_whiteboard.Broker.Ledger.Invariant.{Inv, evict_completed-Inv}

module _ {E : Type 0} where
  evict_completed_keeps :
      (id : Str) (entry : LedgerEntry E) (order : List Str) (entries : List (Str × LedgerEntry E))
      → entry.result ≡ none
      → lookup id entries ≡ some entry
      → lookup id (evict_completed order entries).entries ≡ some entry
  unfolding evict_completed
  evict_completed_keeps id entry [] entries unset found = found
  evict_completed_keeps id entry (oldest ∷ order) entries unset found = ground (
    arith,
    found,
    unset,
    str_eq_iff oldest id,
    lookup-delete oldest id entries,
    evict_completed_keeps id entry order entries unset,
    evict_completed_keeps id entry order (delete oldest entries) unset,
  )

  -- A ledger that stays full has no completed command left to give up.
  evict_completed_full :
      (order : List Str) (entries : List (Str × LedgerEntry E))
      → leb max_command_ledger_entries (length (evict_completed order entries).entries) ≡ true
      → (evict_completed order entries).order ≡ []
  unfolding evict_completed
  evict_completed_full [] entries full = refl
  evict_completed_full (oldest ∷ order) entries full = ground (
    arith,
    full,
    evict_completed_full order entries,
    evict_completed_full order (delete oldest entries),
  )

  begin_at_keeps :
      (id fingerprint other : Str) (entry : LedgerEntry E) (l : CommandLedger E)
      (found : Option (LedgerEntry E))
      → lookup id l.entries ≡ found
      → lookup other l.entries ≡ some entry
      → entry.result ≡ none
      → lookup other (begin_at id fingerprint l found).1.entries ≡ some entry
  unfolding begin_at begin_absent make_room
  begin_at_keeps id fingerprint other entry l (some e) h h' unset = h'
  begin_at_keeps id fingerprint other entry l none h h' unset =
      let roomy = evict_completed l.order l.entries in
      ground (
        arith,
        h,
        h',
        str_eq_iff id other,
        evict_completed_keeps other entry l.order l.entries unset h',
        lookup-insert id other (record { fingerprint = fingerprint; result = none; waiters = [] })
            roomy.entries,
      )

  begin_at_full :
      (id fingerprint : Str) (l : CommandLedger E) (found : Option (LedgerEntry E))
      → Inv l
      → (begin_at id fingerprint l found).0 ≡ ledger_full
      → let l' = (begin_at id fingerprint l found).1 in
        (length l'.entries ≡ max_command_ledger_entries)
        × ((j : Str) → completed (lookup j l'.entries) ≡ false)
  unfolding begin_at begin_absent begin_present make_room
  begin_at_full id fingerprint l (some e) v full = ground (arith, full)
  begin_at_full id fingerprint l none v full =
      let roomy = evict_completed l.order l.entries in
      let w = evict_completed-Inv l.order l.entries v in
      let empty = evict_completed_full l.order l.entries (ground (arith, full)) in
      (ground (arith, full, w.bound), λ j. ground (arith, full, w.ordered j, ap (contains j) empty))

  -- Sending a command forgets no pending command, and is refused as over the limit only if the ledger
  -- then holds 1024 commands, none of them completed.
  pub begin_room :
      (id fingerprint : Str) (l : CommandLedger E)
      → Inv l
      → let (d, l') = begin id (some fingerprint) l in
        ((other : Str) (entry : LedgerEntry E)
          → lookup other l.entries ≡ some entry
          → entry.result ≡ none
          → lookup other l'.entries ≡ some entry)
        × (d ≡ ledger_full
            → (length l'.entries ≡ max_command_ledger_entries)
              × ((j : Str) → completed (lookup j l'.entries) ≡ false))
  unfolding begin
  begin_room id fingerprint l v = (
    λ other entry. begin_at_keeps id fingerprint other entry l (lookup id l.entries) refl,
    begin_at_full id fingerprint l (lookup id l.entries) v,
  )
