-- ===== src/Broker/Ledger/Invariant.antt =====
-- What holds of a command ledger between two calls.
use agent_whiteboard.Base.{
  ◌≤◌, ◌≡◌, refl, sym, ap, subst, true, false, List, [], ◌∷◌, Option, none, some, Str, str_eq_iff,
  str_eq_symm, str_eq_refl, length, is_some, ltb, leb, lookup, insert, delete, lookup-insert,
  lookup-delete, contains, Distinct, arith, length-delete_le, length-insert, Bool-cases, inl, inr,
}
use agent_whiteboard.Broker.Ledger.{
  max_command_ledger_entries, LedgerEntry, CommandLedger, new_ledger, completed, evict_completed,
  make_room, begin_absent, begin_at, begin,
}

module _ {E : Type 0} where
  -- The order is that of the completed commands, none twice, and nobody waits for them.
  pub record Inv (l : CommandLedger E) : Type 0 where
    pub bound : length l.entries ≤ max_command_ledger_entries
    pub ordered : (id : Str) → contains id l.order ≡ completed (lookup id l.entries)
    pub distinct : Distinct l.order
    pub settled :
        (id : Str) (e : LedgerEntry E)
        → lookup id l.entries ≡ some e
        → is_some e.result ≡ true
        → e.waiters ≡ []

  pub new-Inv : Inv (new_ledger {E = E})
  unfolding lookup
  new-Inv = record {
    bound = omega arith;
    ordered = λ id. refl;
    distinct = tt;
    settled = λ id e h. cc;
  }

  -- The oldest completed command goes.
  forget-Inv :
      (oldest : Str) (order : List Str) (entries : List (Str × LedgerEntry E))
      → Inv (record { entries = entries; order = oldest ∷ order })
      → Inv (record { entries = delete oldest entries; order = order })
  forget-Inv oldest order entries v = record {
    bound = omega (arith, v.bound, length-delete_le oldest entries);
    ordered = λ id. ground (
      arith,
      v.ordered id,
      v.distinct.0,
      str_eq_iff id oldest,
      str_eq_symm oldest id,
      lookup-delete oldest id entries,
    );
    distinct = v.distinct.1;
    settled = λ id e h. v.settled id e (ground (arith, h, lookup-delete oldest id entries));
  }

  -- A command in the order of completion is completed.
  oldest_completed :
      (oldest : Str) (order : List Str) (entries : List (Str × LedgerEntry E))
      → Inv (record { entries = entries; order = oldest ∷ order })
      → completed (lookup oldest entries) ≡ true
  oldest_completed oldest order entries v = ground (arith, v.ordered oldest, str_eq_refl oldest)

  -- A round of `make_room` on a full ledger.
  pub evict_completed-round :
      (oldest : Str) (order : List Str) (entries : List (Str × LedgerEntry E))
      → Inv (record { entries = entries; order = oldest ∷ order })
      → leb max_command_ledger_entries (length entries) ≡ true
      → evict_completed (oldest ∷ order) entries ≡ evict_completed order (delete oldest entries)
  unfolding evict_completed
  evict_completed-round oldest order entries v full =
      rw (full, oldest_completed oldest order entries v) refl

  pub evict_completed-stop :
      (order : List Str) (entries : List (Str × LedgerEntry E))
      → leb max_command_ledger_entries (length entries) ≡ false
      → evict_completed order entries ≡ record { entries = entries; order = order }
  unfolding evict_completed
  evict_completed-stop [] entries room = refl
  evict_completed-stop (oldest ∷ order) entries room = rw room refl

  pub evict_completed-Inv :
      (order : List Str) (entries : List (Str × LedgerEntry E))
      → Inv (record { entries = entries; order = order })
      → Inv (evict_completed order entries)
  unfolding evict_completed
  evict_completed-Inv [] entries v = v
  evict_completed-Inv (oldest ∷ order) entries v =
      elim (Bool-cases (leb max_command_ledger_entries (length entries))) [
        | inl full ↦
            subst Inv (sym (evict_completed-round oldest order entries v full)) (
              evict_completed-Inv order (delete oldest entries) (forget-Inv oldest order entries v))
        | inr room ↦ subst Inv (sym (evict_completed-stop (oldest ∷ order) entries room)) v
      ]

  -- An entry without result, for a command that has none either.
  pub set_pending-Inv :
      (id : Str) (entry : LedgerEntry E) (l : CommandLedger E)
      → Inv l
      → entry.result ≡ none
      → completed (lookup id l.entries) ≡ false
      → length (insert id entry l.entries) ≤ max_command_ledger_entries
      → Inv (record l { entries = insert id entry l.entries })
  set_pending-Inv id entry l v unset before bound = record {
    bound = bound;
    ordered = λ j.
        ground
          (arith, v.ordered j, unset, before, lookup-insert id j entry l.entries, str_eq_iff id j);
    distinct = v.distinct;
    settled =
        λ j e h r. ground (arith, h, r, unset, v.settled j e, lookup-insert id j entry l.entries);
  }

  -- Making room adds no command.
  evict_completed_absent :
      (id : Str) (order : List Str) (entries : List (Str × LedgerEntry E))
      → lookup id entries ≡ none
      → lookup id (evict_completed order entries).entries ≡ none
  unfolding evict_completed
  evict_completed_absent id [] entries h = h
  evict_completed_absent id (oldest ∷ order) entries h = ground (
    arith,
    h,
    lookup-delete oldest id entries,
    evict_completed_absent id order entries,
    evict_completed_absent id order (delete oldest entries),
  )

  begin_absent-Inv :
      (id fingerprint : Str) (l : CommandLedger E)
      → Inv l
      → lookup id l.entries ≡ none
      → Inv (begin_absent id fingerprint (make_room l)).1
  unfolding make_room begin_absent
  begin_absent-Inv id fingerprint l v h =
      let roomy = evict_completed l.order l.entries in
      let w = evict_completed-Inv l.order l.entries v in
      let absent = evict_completed_absent id l.order l.entries h in
      let entry : LedgerEntry E = record {
        fingerprint = fingerprint;
        result = none;
        waiters = [];
      } in
      elim (Bool-cases (ltb (length roomy.entries) max_command_ledger_entries)) [
        | inl room ↦ rw room (
            set_pending-Inv id entry roomy w refl (ap completed absent)
              (ground (arith, room, absent, length-insert id entry roomy.entries)))
        | inr full ↦ rw full w
      ]

  begin_at-Inv :
      (id fingerprint : Str) (l : CommandLedger E) (found : Option (LedgerEntry E))
      → lookup id l.entries ≡ found
      → Inv l
      → Inv (begin_at id fingerprint l found).1
  unfolding begin_at
  begin_at-Inv id fingerprint l none h v = begin_absent-Inv id fingerprint l v h
  begin_at-Inv id fingerprint l (some entry) h v = v

  pub begin-Inv :
      (id : Str) (fingerprint : Option Str) (l : CommandLedger E)
      → Inv l
      → Inv (begin id fingerprint l).1
  unfolding begin
  begin-Inv id none l v = v
  begin-Inv id (some fingerprint) l v = begin_at-Inv id fingerprint l (lookup id l.entries) refl v
