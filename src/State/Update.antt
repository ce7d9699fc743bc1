-- ===== src/State/Update.antt =====
-- internal/agent/state/store.go: the updates of a mapping, first as they change it in memory, then as
-- calls on the store. `at` is the time that the caller gives.
pub mod Current
use agent_whiteboard.Base.{
  Bool, false, not, ◌&&◌, ◌||◌, List, [], ◌∷◌, ◌++◌, Option, none, some, Str, str_eq, is_some,
  if◌then◌else◌, push_back,
}
use agent_whiteboard.Provider.Turn.{ExecutionSettings, ModelPresentation}
use agent_whiteboard.State.{
  Time, before, later_time, Revision, PreparedCommit, Session, Mapping, commit_prepared,
  commit_accepted, revision_replacement,
}
use agent_whiteboard.State.Equal.{eq_option, eq_revision, eq_prepared}
use agent_whiteboard.State.Transition.{SettingsTransition, NativeSessionTransition}
use agent_whiteboard.State.Store.{StateError, missing, changed, refused, Result, ok, err}

abbrev pub with_current : Mapping → Session → Mapping
with_current m s = record m { current = some s }

abbrev pub touch : Time → Session → Session
touch at s = record s { updated_at = later_time s.updated_at at }

replaced : Mapping → Result Session → Result Mapping
replaced m (err e) = err e
replaced m (ok s) = ok (with_current m s)

on_session : StateError → (Session → Result Session) → Mapping → Option Session → Result Mapping
on_session e update m none = err e
on_session e update m (some s) = replaced m (update s)

-- An update of the current session, or the error where there is none.
unfoldable pub on_current : StateError → (Session → Result Session) → Mapping → Result Mapping
unfolding on_session replaced
on_current e update m = on_session e update m m.current

-- `ObserveRevision`.
unfoldable pub observe_revision : Revision → Time → Session → Result Session
observe_revision revision at s =
    if elim s.prepared [ none ↦ false | some p ↦ not (eq_revision p.revision revision) ]
    then err refused
    else ok (touch at (record s { observed = some revision }))

acknowledge_of : Revision → Time → Session → Revision → Revision → Result Session
acknowledge_of revision at s committed observed =
    if is_some s.prepared
      || not (str_eq revision.revision revision_replacement)
      || not (str_eq committed.digest revision.digest)
      || str_eq observed.digest revision.digest
      || not (before observed.source_updated_at revision.source_updated_at)
      || not (before committed.source_updated_at revision.source_updated_at)
    then err refused
    else ok (touch at (record s { committed = some revision; observed = none }))

-- `AcknowledgeCommittedRevision`.
unfoldable pub acknowledge_committed : Revision → Time → Session → Result Session
unfolding acknowledge_of
acknowledge_committed revision at s = elim s.committed [
  | none ↦ err missing
  | some committed ↦ elim s.observed [
    | none ↦ err missing
    | some observed ↦ acknowledge_of revision at s committed observed
  ]
]

abbrev pub prepared_of : Revision → Str → PreparedCommit
prepared_of revision turn_id = record {
  revision = revision;
  turn_id = turn_id;
  phase = commit_prepared;
}

-- `PrepareCommit`.
unfoldable pub prepare_commit : Revision → Str → Time → Session → Result Session
prepare_commit revision turn_id at s =
    if eq_option eq_revision s.committed (some revision) then err refused else elim s.prepared [
      | some existing ↦
          if eq_prepared existing (prepared_of revision turn_id) then ok s else err refused
      | none ↦ ok (
          touch at
            (record s { observed = some revision; prepared = some (prepared_of revision turn_id) }))
    ]

-- `promotePrepared`.
abbrev pub promoted : PreparedCommit → Time → Session → Session
promoted p at s =
    touch at (record s { committed = some p.revision; observed = none; prepared = none })

-- `expectedPrepared`, and what is done with it.
prepared_found :
    Str
    → (PreparedCommit → Session → Result Session)
    → Session
    → Option PreparedCommit
    → Result Session
prepared_found turn_id update s none = err missing
prepared_found turn_id update s (some p) =
    if str_eq p.turn_id turn_id then update p s else err missing

unfoldable pub on_prepared :
    Str → (PreparedCommit → Session → Result Session) → Session → Result Session
unfolding prepared_found
on_prepared turn_id update s = prepared_found turn_id update s s.prepared

abbrev promote_accepted : Time → PreparedCommit → Session → Result Session
promote_accepted at p s =
    if str_eq p.phase commit_accepted then ok (promoted p at s) else err refused

-- `PromotePrepared`.
unfoldable pub promote_prepared : Str → Time → Session → Result Session
promote_prepared turn_id at = on_prepared turn_id (promote_accepted at)

abbrev accept : Time → PreparedCommit → Session → Result Session
accept at p s =
    if str_eq p.phase commit_prepared
    then ok (touch at (record s { prepared = some (record p { phase = commit_accepted }) }))
    else if str_eq p.phase commit_accepted
    then ok (touch at s)
    else err refused

-- `MarkPreparedAccepted`.
unfoldable pub mark_accepted : Str → Time → Session → Result Session
mark_accepted turn_id at = on_prepared turn_id (accept at)

abbrev pub rejected : PreparedCommit → Time → Session → Session
rejected p at s = touch at (record s { observed = some p.revision; prepared = none })

abbrev settle : Bool → Time → PreparedCommit → Session → Result Session
settle accepted at p s =
    if accepted
    then ok (promoted p at s)
    else if str_eq p.phase commit_prepared
    then ok (rejected p at s)
    else err refused

-- `reconcilePrepared`.
unfoldable pub reconcile_prepared : Str → Bool → Time → Session → Result Session
reconcile_prepared turn_id accepted at = on_prepared turn_id (settle accepted at)

abbrev archived : Mapping → List Session
archived m = elim m.current [ none ↦ m.archives | some s ↦ push_back m.archives s ]

-- `NewConversation`.
unfoldable pub new_conversation : Session → Mapping → Result Mapping
new_conversation session m = ok (record m { current = some session; archives = archived m })

-- The archive at `archiveIndex`, and the others.
unfoldable pub take_archive : Str → List Session → Option (Session × List Session)
take_archive id [] = none
take_archive id (s ∷ ss) =
    let rest = take_archive id ss in
    if str_eq s.conversation_id id
    then some (s, ss)
    else elim rest [ none ↦ none | some (found, others) ↦ some (found, s ∷ others) ]

restore_found : Mapping → Option (Session × List Session) → Result Mapping
restore_found m none = err missing
restore_found m (some (found, others)) = new_conversation found (record m { archives = others })

-- `RestoreArchive`.
unfoldable pub restore_archive : Str → Mapping → Result Mapping
unfolding restore_found new_conversation
restore_archive id m = restore_found m (take_archive id m.archives)

-- `UpdateCurrentSettings`.
unfoldable pub change_settings : SettingsTransition → Time → Session → Result Session
change_settings change at s =
    if str_eq s.conversation_id change.conversation_id
      && str_eq s.native_session change.native_session
    then ok (
        touch at (record s {
          settings = some change.settings;
          presentation = some change.presentation;
          model_label = change.presentation.model_display_name;
        }))
    else err changed

-- Whether the current session has had no prompt, and is the one that was expected.
abbrev prompt_free : NativeSessionTransition → Session → Bool
prompt_free change s =
    not (is_some s.committed)
    && not (is_some s.prepared)
    && str_eq s.conversation_id change.conversation_id
    && str_eq s.native_session change.from

-- `ReplaceMissingCurrentNativeSessionIfUnchanged`.
unfoldable pub replace_native : NativeSessionTransition → Time → Session → Result Session
replace_native change at s =
    if prompt_free change s
    then ok (touch at (record s { native_session = change.to }))
    else err changed

-- `ReplacePromptFreeCurrentNativeSessionAndSettingsIfUnchanged`.
unfoldable pub replace_native_and_settings :
    NativeSessionTransition
    → ExecutionSettings
    → ModelPresentation
    → Time
    → Session
    → Result Session
replace_native_and_settings change settings presentation at s =
    if prompt_free change s
    then ok (
        touch at (record s {
          native_session = change.to;
          settings = some settings;
          presentation = some presentation;
          model_label = presentation.model_display_name;
        }))
    else err changed
