-- ===== src/State/Transition.antt =====
-- internal/agent/state/store.go: what an update may change about the sessions of a mapping, which is
-- checked against a snapshot of them after the update has run.
pub mod Index
pub mod Clamp
use agent_whiteboard.Base.{
  Bool, true, false, not, ◌&&◌, ◌||◌, List, [], ◌∷◌, Option, none, some, Str, str_eq, is_some, map,
  all, lookup, insert, if◌then◌else◌,
}
use agent_whiteboard.Provider.Turn.{ExecutionSettings, ModelPresentation}
use agent_whiteboard.State.{
  Time, before, later_time, Revision, PreparedCommit, Session, Mapping, sessions, commit_prepared,
  commit_accepted, revision_replacement,
}
use agent_whiteboard.State.Equal.{eq_option, eq_revision, eq_prepared, eq_settings, eq_presentation}

pub record SettingsTransition : Type 0 where
  pub conversation_id : Str
  pub native_session : Str
  pub settings : ExecutionSettings
  pub presentation : ModelPresentation

pub record NativeSessionTransition : Type 0 where
  pub conversation_id : Str
  pub from : Str
  pub to : Str

pub record SessionSnapshot : Type 0 where
  pub updated_at : Time
  pub native_session : Str
  pub settings : Option ExecutionSettings
  pub presentation : Option ModelPresentation
  pub committed : Option Revision
  pub observed : Option Revision
  pub prepared : Option PreparedCommit

abbrev pub snapshot_of : Session → SessionSnapshot
snapshot_of s = record {
  updated_at = s.updated_at;
  native_session = s.native_session;
  settings = s.settings;
  presentation = s.presentation;
  committed = s.committed;
  observed = s.observed;
  prepared = s.prepared;
}

-- A map by conversation of what each session gives, the later of two in the place of the earlier.
unfoldable pub index_sessions {ℓ} :
    {V : Type ℓ} → (Session → V) → List (Str × V) → List Session → List (Str × V)
index_sessions value found [] = found
index_sessions value found (s ∷ ss) =
    index_sessions value (insert s.conversation_id (value s) found) ss

-- `snapshotSessions`.
unfoldable pub snapshot_sessions : Mapping → List (Str × SessionSnapshot)
snapshot_sessions m = index_sessions snapshot_of [] (sessions m)

abbrev pub clamp_to : Option SessionSnapshot → Session → Session
clamp_to none s = s
clamp_to (some snapshot) s = record s { updated_at = later_time snapshot.updated_at s.updated_at }

abbrev pub clamp : List (Str × SessionSnapshot) → Session → Session
clamp snapshots s = clamp_to (lookup s.conversation_id snapshots) s

abbrev pub map_option {ℓ κ} : {A : Type ℓ} {B : Type κ} → (A → B) → Option A → Option B
map_option f none = none
map_option f (some a) = some (f a)

-- `clampSessionTimes`: the time of a session does not go back.
unfoldable pub clamp_session_times : List (Str × SessionSnapshot) → Mapping → Mapping
clamp_session_times snapshots m = record m {
  current = map_option (clamp snapshots) m.current;
  archives = map (clamp snapshots) m.archives;
}

-- The exception for the native session that was missing at the provider.
abbrev pub native_allowed : Option NativeSessionTransition → Str → SessionSnapshot → Session → Bool
native_allowed none id previous current = false
native_allowed (some allowed) id previous current =
    str_eq id allowed.conversation_id
    && str_eq previous.native_session allowed.from
    && str_eq current.native_session allowed.to
    && not (is_some previous.committed)
    && not (is_some previous.prepared)

abbrev pub native_unchanged_or_allowed :
    Option NativeSessionTransition → Str → SessionSnapshot → Session → Bool
native_unchanged_or_allowed allowed id previous current =
    str_eq previous.native_session current.native_session
    || native_allowed allowed id previous current

abbrev combined_native :
    Option NativeSessionTransition → SettingsTransition → Str → SessionSnapshot → Session → Bool
combined_native none settings id previous current = false
combined_native (some native) settings id previous current =
    str_eq id native.conversation_id
    && str_eq id settings.conversation_id
    && str_eq previous.native_session native.from
    && str_eq current.native_session native.to
    && str_eq settings.native_session native.to

abbrev settings_allowed :
    Option SettingsTransition
    → Option NativeSessionTransition
    → Str
    → SessionSnapshot
    → Session
    → Bool
settings_allowed none native id previous current = false
settings_allowed (some allowed) native id previous current =
    str_eq id allowed.conversation_id
    && ((str_eq previous.native_session allowed.native_session
          && str_eq current.native_session allowed.native_session)
        || combined_native native allowed id previous current)
    && eq_option eq_settings current.settings (some allowed.settings)
    && eq_option eq_presentation current.presentation (some allowed.presentation)

abbrev pub settings_unchanged_or_allowed :
    Option SettingsTransition
    → Option NativeSessionTransition
    → Str
    → SessionSnapshot
    → Session
    → Bool
settings_unchanged_or_allowed allowed native id previous current =
    (eq_option eq_settings previous.settings current.settings
      && eq_option eq_presentation previous.presentation current.presentation)
    || settings_allowed allowed native id previous current

-- The same record, or the same record marked as accepted.
abbrev pub kept_or_accepted : PreparedCommit → PreparedCommit → Bool
kept_or_accepted p q =
    eq_prepared q p
    || (str_eq p.phase commit_prepared
        && str_eq q.phase commit_accepted
        && eq_revision q.revision p.revision
        && str_eq q.turn_id p.turn_id)

-- The prepared record of the session before, and what became of it.
abbrev pub prepared_resolved : Option PreparedCommit → Session → Bool
prepared_resolved none current = true
prepared_resolved (some p) current = elim current.prepared [
  | some q ↦ kept_or_accepted p q
  | none ↦
      (eq_option eq_revision current.committed (some p.revision) && not (is_some current.observed))
      || (str_eq p.phase commit_prepared
          && eq_option eq_revision current.observed (some p.revision))
]

abbrev pub resolves_prepared : Option PreparedCommit → Revision → Session → Bool
resolves_prepared none committed current = false
resolves_prepared (some p) committed current =
    not (is_some current.prepared)
    && not (is_some current.observed)
    && eq_revision committed p.revision

abbrev pub acknowledged :
    Option PreparedCommit → Option Revision → Option Revision → Revision → Session → Bool
acknowledged none (some old) (some observed) committed current =
    not (is_some current.prepared)
    && not (is_some current.observed)
    && str_eq committed.digest old.digest
    && str_eq committed.revision revision_replacement
    && before observed.source_updated_at committed.source_updated_at
    && before old.source_updated_at committed.source_updated_at
acknowledged _ _ _ committed current = false

abbrev pub committed_justified : SessionSnapshot → Session → Bool
committed_justified previous current =
    eq_option eq_revision previous.committed current.committed || elim current.committed [
      | none ↦ false
      | some committed ↦
          resolves_prepared previous.prepared committed current
          || acknowledged previous.prepared previous.committed previous.observed committed current
    ]

module _ (settings : Option SettingsTransition) (native : Option NativeSessionTransition) where
  -- The turn of the loop for one session that was there before.
  unfoldable pub valid_transition_to : Str → SessionSnapshot → Option Session → Bool
  valid_transition_to id previous none = not (is_some previous.prepared)
  valid_transition_to id previous (some current) =
      native_unchanged_or_allowed native id previous current
      && settings_unchanged_or_allowed settings native id previous current
      && prepared_resolved previous.prepared current
      && committed_justified previous current

  abbrev pub valid_entry : List (Str × Session) → Str × SessionSnapshot → Bool
  valid_entry after (id, previous) = valid_transition_to id previous (lookup id after)

  -- `validateSessionTransitions`. Whether any turn fails does not depend on the order.
  unfoldable pub valid_session_transitions : List (Str × SessionSnapshot) → Mapping → Bool
  valid_session_transitions snapshots m =
      all (valid_entry (index_sessions (λ s. s) [] (sessions m))) snapshots
