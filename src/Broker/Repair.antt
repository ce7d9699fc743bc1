-- ===== src/Broker/Repair.antt =====
-- internal/agent/broker/state_repair.go, with removeArchivedSession of archive.go and
-- classifyLoadedState of context.go: the broker tells what a mutation of the durable state will write,
-- and reads the state again where the outcome is in doubt. A copy of a mapping is the mapping. An
-- outcome is one of the three that are known. `Attempt` holds what the clock, 0 for its zero time,
-- and the system answer to one try.
pub mod Proven
pub mod Predict
pub mod Foretold
use agent_whiteboard.Base.{
  ℕ, ◌==◌, Bool, true, false, not, ◌&&◌, List, Option, none, some, Str, str_eq, is_some,
  if◌then◌else◌,
}
use agent_whiteboard.Agent.{Platform}
use agent_whiteboard.Config.Origin.{Network}
use agent_whiteboard.State.{Time, before, Identity, Revision, Session, Mapping, commit_accepted}
use agent_whiteboard.State.Equal.{eq_mapping}
use agent_whiteboard.State.Valid.{valid_mapping_of}
use agent_whiteboard.State.Store.{Io, Store, Commit, applied, Result, ok, err}
use agent_whiteboard.State.Store.Access.{load}
use agent_whiteboard.State.Update.{take_archive, prepared_of}
use agent_whiteboard.State.Calls.{promotes, update, remove_session}

-- `maxTime`.
abbrev pub max_time : Time → Time → Time
max_time left right = if before left right then right else left

-- The mapping with another current session, both of them touched.
abbrev pub moved : Time → Session → Mapping → Mapping
moved at s m = record m {
  current = some (record s { updated_at = max_time s.updated_at at });
  updated_at = max_time m.updated_at at;
}

abbrev pub on_current : (Session → Mapping → Mapping) → Mapping → Mapping
on_current f m = elim m.current [ none ↦ m | some s ↦ f s m ]

abbrev pub prepared_session : Revision → Str → Time → Session → Mapping → Mapping
prepared_session revision turn_id at s =
    moved at (record s { observed = some revision; prepared = some (prepared_of revision turn_id) })

-- `preparedMapping`.
unfoldable pub prepared_mapping : Revision → Str → Time → Mapping → Mapping
prepared_mapping revision turn_id at = on_current (prepared_session revision turn_id at)

abbrev pub accepted_session : Str → Time → Session → Mapping → Mapping
accepted_session turn_id at s m = elim s.prepared [
  | none ↦ m
  | some p ↦
      if str_eq p.turn_id turn_id
      then moved at (record s { prepared = some (record p { phase = commit_accepted }) }) m
      else m
]

-- `acceptedMapping`.
unfoldable pub accepted_mapping : Str → Time → Mapping → Mapping
accepted_mapping turn_id at = on_current (accepted_session turn_id at)

abbrev pub promoted_session : Time → Session → Mapping → Mapping
promoted_session at s m = elim s.prepared [
  | none ↦ m
  | some p ↦ moved at (record s { committed = some p.revision; observed = none; prepared = none }) m
]

-- `promotedMapping`, of a mapping with a prepared revision.
unfoldable pub promoted_mapping : Time → Mapping → Mapping
promoted_mapping at = on_current (promoted_session at)

abbrev pub rejected_session : Time → Session → Mapping → Mapping
rejected_session at s m = elim s.prepared [
  | none ↦ m
  | some p ↦ moved at (record s { observed = some p.revision; prepared = none }) m
]

-- `reconciledMapping`, of a mapping with a prepared revision.
unfoldable pub reconciled_mapping : Bool → Time → Mapping → Mapping
reconciled_mapping accepted at =
    if accepted then promoted_mapping at else on_current (rejected_session at)

abbrev pub acknowledged_session : Revision → Time → Session → Mapping → Mapping
acknowledged_session revision at s =
    moved at (record s { committed = some revision; observed = none })

-- `acknowledgedMapping`.
unfoldable pub acknowledged_mapping : Revision → Time → Mapping → Mapping
acknowledged_mapping revision at = on_current (acknowledged_session revision at)

abbrev pub observed_session : Revision → Time → Session → Mapping → Mapping
observed_session revision at s = moved at (record s { observed = some revision })

-- `observedMapping`.
unfoldable pub observed_mapping : Revision → Time → Mapping → Mapping
observed_mapping revision at = on_current (observed_session revision at)

removed_others : Time → Mapping → Option (Session × List Session) → Option Mapping
removed_others at m none = none
removed_others at m (some (found, others)) =
    some (record m { archives = others; updated_at = max_time m.updated_at at })

-- `removedArchiveMapping`.
unfoldable pub removed_archive_mapping : Str → Time → Mapping → Option Mapping
unfolding removed_others
removed_archive_mapping id at m = removed_others at m (take_archive id m.archives)

pub data Classified : Type 0 where
  mapping_invalid mapping_other : Classified
  mapping_precondition mapping_target : Mapping → Classified

pub record Attempt : Type 0 where
  pub now : ℕ
  pub mutation : Io
  pub reading : Io

-- `mutationTime`: the time of the clock in UTC.
abbrev pub mutation_time : ℕ → Option Time
mutation_time now = if now == 0 then none else some (record { instant = now; utc = true })

abbrev pub succeeded : Commit → Bool
succeeded c = elim c.outcome [ applied ↦ not (is_some c.error) | _ ↦ false ]

-- What a repair returns: the mapping that is now stored, or the error that the repair failed.
abbrev pub Repaired : Type 0
Repaired = Option Mapping × Store

-- What the state that is read again says, where `retry` goes on from the precondition.
judged : (Mapping → Store → Repaired) → Classified × Store → Repaired
judged retry (mapping_target m, s) = (some m, s)
judged retry (mapping_precondition m, s) = retry m s
judged retry (mapping_invalid, s) = (none, s)
judged retry (mapping_other, s) = (none, s)

give_up : Mapping → Store → Repaired
give_up m s = (none, s)

module _ (p : Platform) (n : Network) (identity : Identity) where
  classify_loaded : Mapping → Mapping → Result Mapping → Classified
  classify_loaded old target (err e) = mapping_invalid
  classify_loaded old target (ok m) =
      if not (valid_mapping_of p n identity m)
      then mapping_invalid
      else if eq_mapping m target
      then mapping_target m
      else if eq_mapping m old
      then mapping_precondition m
      else mapping_other

  classified : Mapping → Mapping → Result Mapping × Store → Classified × Store
  classified old target (r, s) = (classify_loaded old target r, s)

  -- `classifyLoadedState`.
  unfoldable pub classify_loaded_state : Io → Mapping → Mapping → Store → Classified × Store
  unfolding classified classify_loaded
  classify_loaded_state io old target s = classified old target (load p n io identity s)

  mutated : Bool → (Mapping → Store → Repaired) → Io → Mapping → Mapping → Store → Repaired
  mutated true retry io old target s = (some target, s)
  mutated false retry io old target s = judged retry (classify_loaded_state io old target s)

  module _ (call : Io → Time → Store → Commit × Store)
      (predict : Time → Mapping → Option Mapping) where
    attempt_at :
        (Mapping → Store → Repaired)
        → Attempt
        → Mapping
        → Option Time
        → Option Mapping
        → Store
        → Repaired
    attempt_at retry try old none target s = (none, s)
    attempt_at retry try old (some at) none s = (none, s)
    attempt_at retry try old (some at) (some target) s =
        let (commit, t) = call try.mutation at s in
        mutated (succeeded commit) retry try.reading old target t

    predicted : Option Time → Mapping → Option Mapping
    predicted none m = none
    predicted (some at) m = predict at m

    attempt : (Mapping → Store → Repaired) → Attempt → Mapping → Store → Repaired
    attempt retry try old s =
        attempt_at retry try old (mutation_time try.now) (predicted (mutation_time try.now) old) s

    -- A mutation, tried once more where the state is still the one before it.
    unfoldable pub mutate_twice : Attempt → Attempt → Mapping → Store → Repaired
    unfolding attempt attempt_at predicted mutated judged give_up
    mutate_twice first second = attempt (attempt give_up second) first

  -- The turn of the revision that is prepared and accepted in a mapping that is valid.
  abbrev pub accepted_turn : Mapping → Option Str
  accepted_turn m = if not (valid_mapping_of p n identity m) then none else elim m.current [
    | none ↦ none
    | some s ↦ elim s.prepared [
      | none ↦ none
      | some c ↦ if str_eq c.phase commit_accepted then some c.turn_id else none
    ]
  ]

  promote_turn : Option Str → Attempt → Attempt → Mapping → Store → Repaired
  promote_turn none first second old s = (none, s)
  promote_turn (some turn_id) first second old s =
      mutate_twice (λ io at. update p n io identity none (promotes turn_id) at)
        (λ at m. some (promoted_mapping at m)) first second old s

  -- `promoteAccepted`.
  unfoldable pub promote_accepted : Attempt → Attempt → Mapping → Store → Repaired
  unfolding promote_turn
  promote_accepted first second old s = promote_turn (accepted_turn old) first second old s

  -- `removeArchivedSession`.
  unfoldable pub remove_archived_session : Str → Attempt → Attempt → Mapping → Store → Repaired
  remove_archived_session id =
      mutate_twice (λ io at. remove_session p n io identity id at) (removed_archive_mapping id)
