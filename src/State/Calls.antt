-- ===== src/State/Calls.antt =====
-- internal/agent/state/store.go: the calls on the store, each with its precondition, and runs of them.
-- A call `…IfUnchanged` of the source is the call with the mapping that is expected.
pub mod Kept
pub mod Sound
pub mod Checked
pub mod Prepared
pub mod Committed
use agent_whiteboard.Base.{
  Bool, true, false, not, ◌&&◌, ◌||◌, List, [], ◌∷◌, Option, none, some, Str, str_eq, is_some,
  is_empty, if◌then◌else◌,
}
use agent_whiteboard.Agent.{Platform}
use agent_whiteboard.Common.Id.{valid_id}
use agent_whiteboard.Config.Origin.{Network}
use agent_whiteboard.Provider.Turn.{
  ExecutionSettings, ModelPresentation, valid_settings, valid_presentation,
}
use agent_whiteboard.State.{Time, later_time, Identity, Revision, Session, Mapping}
use agent_whiteboard.State.Valid.{
  valid_stored_time, valid_revision, valid_prepared, valid_identity, valid_native_session,
  valid_reference_text, valid_mapping_of,
}
use agent_whiteboard.State.Transition.{SettingsTransition, NativeSessionTransition}
use agent_whiteboard.State.Store.{
  Io, Store, Commit, invalid, missing, changed, Result, ok, err, fail, close, remove_locked,
}
use agent_whiteboard.State.Store.Access.{
  create, remove, update_at_expected_transition, commit_locked, load_locked, on_key,
}
use agent_whiteboard.State.Update.{
  on_current, observe_revision, acknowledge_committed, prepare_commit, prepared_of,
  promote_prepared, mark_accepted, reconcile_prepared, new_conversation, restore_archive,
  take_archive, change_settings, replace_native, replace_native_and_settings,
}

-- The updates that a caller may ask for. The last takes a native session that was found missing, and the
-- settings that its replacement was created with, if they are to change.
pub data Change : Type 0 where
  observes acknowledges : Revision → Change
  prepares : Revision → Str → Change
  accepts promotes : Str → Change
  reconciles : Str → Bool → Change
  starts : Session → Change
  restores : Str → Change
  changes_settings : SettingsTransition → Change
  replaces_native :
      NativeSessionTransition → Option (ExecutionSettings × ModelPresentation) → Change

abbrev pub replace :
    NativeSessionTransition
    → Option (ExecutionSettings × ModelPresentation)
    → Time
    → Session
    → Result Session
replace change none = replace_native change
replace change (some (settings, presentation)) =
    replace_native_and_settings change settings presentation

-- The update in memory.
unfoldable pub apply_change : Change → Time → Mapping → Result Mapping
apply_change (observes revision) at = on_current missing (observe_revision revision at)
apply_change (acknowledges revision) at = on_current missing (acknowledge_committed revision at)
apply_change (prepares revision turn_id) at =
    on_current missing (prepare_commit revision turn_id at)
apply_change (accepts turn_id) at = on_current missing (mark_accepted turn_id at)
apply_change (promotes turn_id) at = on_current missing (promote_prepared turn_id at)
apply_change (reconciles turn_id accepted) at =
    on_current missing (reconcile_prepared turn_id accepted at)
apply_change (starts session) at = new_conversation session
apply_change (restores id) at = restore_archive id
apply_change (changes_settings change) at = on_current changed (change_settings change at)
apply_change (replaces_native change settings) at = on_current changed (replace change settings at)

-- The exceptions that a change brings to the check of the transitions.
abbrev pub settings_of : Change → Option SettingsTransition
settings_of (changes_settings change) = some change
settings_of (replaces_native change (some (settings, presentation))) = some (record {
  conversation_id = change.conversation_id;
  native_session = change.to;
  settings = settings;
  presentation = presentation;
})
settings_of _ = none

abbrev pub native_of : Change → Option NativeSessionTransition
native_of (replaces_native change settings) = some change
native_of _ = none

abbrev valid_pair : Option (ExecutionSettings × ModelPresentation) → Bool
valid_pair none = true
valid_pair (some (settings, presentation)) =
    valid_settings settings && valid_presentation presentation

abbrev fresh_native : NativeSessionTransition → Option Session → Bool
fresh_native change none = false
fresh_native change (some s) =
    not (is_some s.committed)
    && not (is_some s.prepared)
    && not (str_eq change.to s.native_session)
    && str_eq change.conversation_id s.conversation_id
    && str_eq change.from s.native_session

without_archive : Mapping → Option (Session × List Session) → Option Mapping
without_archive m none = none
without_archive m (some (found, others)) = some (record m { archives = others })

without_session_if : Bool → Str → Mapping → Option Mapping
without_session_if true id m = some (record m { current = none })
without_session_if false id m = without_archive m (take_archive id m.archives)

-- The mapping without a session of it, none if it has no such session.
unfoldable pub without_session : Str → Mapping → Option Mapping
unfolding without_session_if without_archive
without_session id m =
    without_session_if (elim m.current [ none ↦ false | some s ↦ str_eq s.conversation_id id ]) id m

pub data Call : Type 0 where
  creates : Io → Identity → Session → Time → Call
  updates : Io → Identity → Option Mapping → Change → Time → Call
  removes_session : Io → Identity → Str → Time → Call
  removes : Io → Identity → Call
  closes : Call

module _ (p : Platform) (n : Network) where
  -- A mapping that is expected, where one may be left out.
  expected_valid : Identity → Option Mapping → Bool
  expected_valid identity none = true
  expected_valid identity (some m) = valid_mapping_of p n identity m

  replaceable : Identity → NativeSessionTransition → Option Mapping → Bool
  replaceable identity change none = false
  replaceable identity change (some m) =
      valid_mapping_of p n identity m && fresh_native change m.current

  -- What a call tests before it takes the store.
  unfoldable pub acceptable : Identity → Option Mapping → Change → Time → Bool
  unfolding expected_valid replaceable
  acceptable identity expected (observes revision) at = valid_revision revision
  acceptable identity expected (acknowledges revision) at = valid_revision revision
  acceptable identity expected (prepares revision turn_id) at =
      valid_prepared (prepared_of revision turn_id)
  acceptable identity expected (accepts turn_id) at = valid_id turn_id
  acceptable identity expected (promotes turn_id) at =
      valid_id turn_id && expected_valid identity expected
  acceptable identity expected (reconciles turn_id accepted) at =
      valid_id turn_id && expected_valid identity expected
  acceptable identity expected (starts session) at = expected_valid identity expected
  acceptable identity expected (restores id) at = valid_id id && expected_valid identity expected
  acceptable identity expected (changes_settings change) at =
      valid_identity p n identity
      && valid_id change.conversation_id
      && valid_reference_text change.native_session
      && valid_settings change.settings
      && valid_presentation change.presentation
      && valid_stored_time at
      && valid_native_session p n change.native_session
  acceptable identity expected (replaces_native change settings) at =
      replaceable identity change expected
      && valid_reference_text change.to
      && valid_pair settings
      && valid_stored_time at
      && valid_native_session p n change.to

  update_if : Bool → Io → Identity → Option Mapping → Change → Time → Store → Commit × Store
  update_if false io identity expected change at s = (fail invalid, s)
  update_if true io identity expected change at s =
      update_at_expected_transition p n (settings_of change) (native_of change) io identity expected
        at (apply_change change at) s

  -- The call on the store of each change.
  unfoldable pub update : Io → Identity → Option Mapping → Change → Time → Store → Commit × Store
  unfolding update_if
  update io identity expected change at s =
      update_if (acceptable identity expected change at) io identity expected change at s

  remaining : Io → Time → Str → Bool → Mapping → Store → Commit × Store
  remaining io at key true m s = remove_locked io key s
  remaining io at key false m s =
      commit_locked p n io key (record m { updated_at = later_time m.updated_at at }) s

  commit_removal : Io → Time → Str → Option Mapping → Store → Commit × Store
  commit_removal io at key none s = (fail missing, s)
  commit_removal io at key (some m) s =
      remaining io at key (not (is_some m.current) && is_empty m.archives) m s

  remove_session_loaded : Io → Str → Time → Str → Result Mapping → Store → Commit × Store
  remove_session_loaded io id at key (err e) s = (fail e, s)
  remove_session_loaded io id at key (ok m) s = commit_removal io at key (without_session id m) s

  remove_session_at : Io → Identity → Str → Time → Str → Store → Commit × Store
  remove_session_at io identity id at key s =
      remove_session_loaded io id at key (load_locked p n io.readable identity key s) s

  -- `RemoveSession`.
  unfoldable pub remove_session : Io → Identity → Str → Time → Store → Commit × Store
  unfolding remove_session_at remove_session_loaded commit_removal remaining
  remove_session io identity id at s =
      if valid_id id
      then on_key p n fail (remove_session_at io identity id at) io.begin_verifies identity s
      else (fail invalid, s)

  unfoldable pub step : Call → Store → Store
  step (creates io identity session at) s = (create p n io identity session at s).1
  step (updates io identity expected change at) s = (update io identity expected change at s).1
  step (removes_session io identity id at) s = (remove_session io identity id at s).1
  step (removes io identity) s = (remove p n io identity s).1
  step closes s = close s

  unfoldable pub run : List Call → Store → Store
  run [] s = s
  run (call ∷ calls) s = run calls (step call s)
