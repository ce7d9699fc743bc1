-- ===== src/State/Store/Access.antt =====
-- internal/agent/state/store.go: the calls that read, create, remove and update an identity's mapping.
use agent_whiteboard.Base.{
  Bool, true, false, not, [], Option, none, some, Str, lookup, if◌then◌else◌,
}
use agent_whiteboard.Agent.{Platform}
use agent_whiteboard.Config.Origin.{Network}
use agent_whiteboard.State.{Time, before, Identity, Session, Mapping}
use agent_whiteboard.State.Equal.{eq_mapping}
use agent_whiteboard.State.Valid.{schema_version, valid_mapping, valid_mapping_of, conversation_key}
use agent_whiteboard.State.Transition.{
  SettingsTransition, NativeSessionTransition, snapshot_sessions, clamp_session_times,
  valid_session_transitions,
}
use agent_whiteboard.State.Store.{
  Commit, Io, Result, StateError, Store, already_exists, begin, changed, commit_encoded,
  commit_verified, err, fail, finish, finish_verified, inspect_expected, inspected, invalid,
  layout_changed, missing, ok, publish, refused, remove_locked, storage, verify_layout, write_file,
}

-- A call on a key, once the store has let it in.
unfoldable pub with_begin {ℓ} :
    {A : Type ℓ}
    → (StateError → A)
    → (Str → Store → A × Store)
    → Str
    → Option StateError × Store
    → A × Store
with_begin refuse call key (some e, s) = (refuse e, s)
with_begin refuse call key (none, s) = call key s

unfoldable pub keyed {ℓ} :
    {A : Type ℓ}
    → (StateError → A)
    → (Str → Store → A × Store)
    → Bool
    → Option Str
    → Store
    → A × Store
keyed refuse call verifies none s = (refuse invalid, s)
keyed refuse call verifies (some key) s = with_begin refuse call key (begin verifies s)

unfoldable pub verified_mapping : Mapping → Bool × Store → Result Mapping × Store
verified_mapping m (true, s) = (ok m, s)
verified_mapping m (false, s) = (err layout_changed, s)

abbrev pub first_mapping : Identity → Session → Time → Mapping
first_mapping identity current at = record {
  schema_version = schema_version;
  identity = identity;
  current = some current;
  archives = [];
  created_at = at;
  updated_at = at;
}

-- The mapping that an update leaves, with what the source keeps of the one before.
abbrev pub restored : Time → Mapping → Mapping → Mapping
restored at old m = record m {
  schema_version = schema_version;
  identity = old.identity;
  created_at = old.created_at;
  updated_at = if before at m.updated_at then m.updated_at else at;
}

unfoldable pub unexpected : Option Mapping → Mapping → Bool
unexpected none old = false
unexpected (some m) old = not (eq_mapping old m)

unfoldable pub checked : Time → Mapping → Mapping → Bool → Result Mapping
checked at old m false = err refused
checked at old m true = ok (restored at old m)

module _ (settings : Option SettingsTransition) (native : Option NativeSessionTransition) where
  -- An update of a mapping in memory, up to the point where it is written.
  unfoldable pub updated : Time → Mapping → Result Mapping → Result Mapping
  updated at old (err e) = err e
  updated at old (ok m) =
      let clamped = clamp_session_times (snapshot_sessions old) m in
      checked at old clamped
        (valid_session_transitions settings native (snapshot_sessions old) clamped)

  unfoldable pub updated_expected :
      Bool → Time → (Mapping → Result Mapping) → Mapping → Result Mapping
  updated_expected true at update old = err changed
  updated_expected false at update old = updated at old (update old)

  unfoldable pub update_mapping :
      Option Mapping → Time → (Mapping → Result Mapping) → Mapping → Result Mapping
  unfolding updated unexpected updated_expected checked
  update_mapping expected at update old = updated_expected (unexpected expected old) at update old

unfoldable pub remove_loaded : Io → Str → Result Mapping → Store → Commit × Store
remove_loaded io key (err e) s = (fail e, s)
remove_loaded io key (ok m) s = remove_locked io key s

module _ (p : Platform) (n : Network) where
  -- `commitLocked`; `encodeMapping` refuses a mapping that is not valid.
  unfoldable pub commit_locked : Io → Str → Mapping → Store → Commit × Store
  unfolding commit_verified commit_encoded publish inspected inspect_expected write_file finish
      finish_verified
  commit_locked io key m s =
      commit_verified io key m (valid_mapping p n m) (verify_layout io.commit_verifies s)

  unfoldable pub decoded : Identity → Option (Option Mapping) → Result Mapping
  decoded identity none = err missing
  decoded identity (some none) = err invalid
  decoded identity (some (some m)) = if valid_mapping_of p n identity m then ok m else err invalid

  -- `loadLocked`.
  unfoldable pub load_locked : Bool → Identity → Str → Store → Result Mapping
  unfolding decoded
  load_locked readable identity key s =
      if readable then decoded identity (lookup key s.files) else err storage

  -- A call on the file of an identity.
  unfoldable pub on_key {ℓ} :
      {A : Type ℓ}
      → (StateError → A)
      → (Str → Store → A × Store)
      → Bool
      → Identity
      → Store
      → A × Store
  unfolding keyed with_begin
  on_key refuse call verifies identity s =
      keyed refuse call verifies (conversation_key p n identity) s

  unfoldable pub load_verified : Io → Result Mapping → Store → Result Mapping × Store
  load_verified io (err e) s = (err e, s)
  load_verified io (ok m) s = verified_mapping m (verify_layout io.end_verifies s)

  unfoldable pub load_at : Io → Identity → Str → Store → Result Mapping × Store
  load_at io identity key s = load_verified io (load_locked io.readable identity key s) s

  -- `Load`.
  unfoldable pub load : Io → Identity → Store → Result Mapping × Store
  unfolding load_at load_verified verified_mapping
  load io identity s = on_key err (load_at io identity) io.begin_verifies identity s

  unfoldable pub create_absent :
      Io → Str → Mapping → Bool → Option (Option Mapping) → Store → Commit × Store
  create_absent io key m false file s = (fail storage, s)
  create_absent io key m true (some file) s = (fail already_exists, s)
  create_absent io key m true none s = commit_locked io key m s

  unfoldable pub create_at : Io → Identity → Session → Time → Str → Store → Commit × Store
  create_at io identity current at key s =
      create_absent io key (first_mapping identity current at) io.readable (lookup key s.files) s

  -- `Create`.
  unfoldable pub create : Io → Identity → Session → Time → Store → Commit × Store
  unfolding create_at create_absent
  create io identity current at s =
      on_key fail (create_at io identity current at) io.begin_verifies identity s

  unfoldable pub remove_at : Io → Identity → Str → Store → Commit × Store
  remove_at io identity key s = remove_loaded io key (load_locked io.readable identity key s) s

  -- `Remove`.
  unfoldable pub remove : Io → Identity → Store → Commit × Store
  unfolding remove_at remove_loaded
  remove io identity s = on_key fail (remove_at io identity) io.begin_verifies identity s

  unfoldable pub commit_update : Io → Str → Result Mapping → Store → Commit × Store
  commit_update io key (err e) s = (fail e, s)
  commit_update io key (ok m) s = commit_locked io key m s

  module _ (settings : Option SettingsTransition) (native : Option NativeSessionTransition) where
    unfoldable pub update_loaded :
        Io
        → Option Mapping
        → Time
        → (Mapping → Result Mapping)
        → Str
        → Result Mapping
        → Store
        → Commit × Store
    update_loaded io expected at update key (err e) s = (fail e, s)
    update_loaded io expected at update key (ok old) s =
        commit_update io key (update_mapping settings native expected at update old) s

    unfoldable pub update_at :
        Io
        → Identity
        → Option Mapping
        → Time
        → (Mapping → Result Mapping)
        → Str
        → Store
        → Commit × Store
    update_at io identity expected at update key s =
        update_loaded io expected at update key (load_locked io.readable identity key s) s

    -- `updateAtExpectedTransition`.
    unfoldable pub update_at_expected_transition :
        Io → Identity → Option Mapping → Time → (Mapping → Result Mapping) → Store → Commit × Store
    unfolding update_at update_loaded commit_update
    update_at_expected_transition io identity expected at update s =
        on_key fail (update_at io identity expected at update) io.begin_verifies identity s
