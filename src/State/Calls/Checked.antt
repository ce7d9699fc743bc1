-- ===== src/State/Calls/Checked.antt =====
-- internal/agent/state/store.go: an update leaves a file as it was, or the check has passed for each
-- session that was in it.
use agent_whiteboard.Base.{
  Bool, true, false, [], Option, none, some, Str, str_eq, str_eq_iff, lookup, insert, lookup-insert,
  ◌≡◌, refl, sym, ◌∙◌, ap, ◌⊎◌, inl, inr, arith, Bool-cases, and-true,
}
use agent_whiteboard.Agent.{Platform}
use agent_whiteboard.Config.Origin.{Network}
use agent_whiteboard.State.{Time, Identity, Session, Mapping, sessions}
use agent_whiteboard.State.Equal.{eq_identity}
use agent_whiteboard.State.Valid.{valid_mapping, valid_mapping_of}
use agent_whiteboard.State.Valid.Unique.{valid_mapping-Distinct}
use agent_whiteboard.State.Transition.{
  SettingsTransition, NativeSessionTransition, snapshot_of, snapshot_sessions, map_option,
  clamp_session_times, valid_transition_to, valid_entry, valid_session_transitions, index_sessions,
}
use agent_whiteboard.State.Transition.Index.{find_session, lookup-indexed, all-lookup}
use agent_whiteboard.State.Store.{Io, Store, Commit, Result}
use agent_whiteboard.State.Store.Change.{Passed, update_mapping-Passed}
use agent_whiteboard.State.Store.Wrote.{Wrote, Updates, update-Wrote}
use agent_whiteboard.State.Calls.{
  Change, apply_change, settings_of, native_of, acceptable, update, update_if,
}

map_option-id : (o : Option Session) → map_option (λ s. s) o ≡ o
map_option-id none = refl
map_option-id (some s) = refl

module _ (p : Platform) (n : Network) where
  -- The check of one session in an update that passed.
  transition-checked :
      (settings : Option SettingsTransition) (native : Option NativeSessionTransition)
      (expected : Option Mapping) (at : Time) (change : Mapping → Result Mapping)
      (old new : Mapping) (id : Str) (x : Session)
      → valid_mapping p n old ≡ true
      → valid_mapping p n new ≡ true
      → Passed settings native expected at change old new
      → find_session id (sessions old) ≡ some x
      → valid_transition_to settings native id (snapshot_of x) (find_session id (sessions new))
        ≡ true
  unfolding valid_session_transitions snapshot_sessions
  transition-checked settings native expected at change old new id x vo vn (m, c, v, e) h =
      let clamped = clamp_session_times (snapshot_sessions old) m in
      let same : sessions new ≡ sessions clamped = ap sessions e in
      let found =
        sym (map_option-id (find_session id (sessions new)))
        ∙ sym (lookup-indexed (λ s. s) id (sessions new) (valid_mapping-Distinct p n new vn).0)
        ∙ ap (λ ss. lookup id (index_sessions (λ s. s) [] ss)) same in
      ap (valid_transition_to settings native id (snapshot_of x)) found
      ∙ all-lookup (valid_entry settings native (index_sessions (λ s. s) [] (sessions clamped)))
          (snapshot_sessions old) id (snapshot_of x) v
          (lookup-indexed snapshot_of id (sessions old) (valid_mapping-Distinct p n old vo).0
            ∙ ap (map_option snapshot_of) h)

  -- A call left the mapping of a file as it was, or passed the check for each session of it.
  abbrev pub Kept : Change → Mapping → Mapping → Type 0
  Kept change old new =
      (new ≡ old)
      ⊎ ((id : Str) (x : Session)
          → find_session id (sessions old) ≡ some x
          → valid_transition_to (settings_of change) (native_of change) id (snapshot_of x)
              (find_session id (sessions new))
            ≡ true)

  abbrev pub Mapped : Change → Str → Mapping → Commit × Store → Type 0
  Mapped change key old r =
      (new : Mapping) × (lookup key r.1.files ≡ some (some new)) × Kept change old new

  Mapped-same :
      (change : Change) (key : Str) (old : Mapping) (s : Store) (r : Commit × Store)
      → lookup key s.files ≡ some (some old)
      → r.1.files ≡ s.files
      → Mapped change key old r
  Mapped-same change key old s r h e = (old, ap (lookup key) e ∙ h, inl refl)

  Mapped-inserted :
      (identity : Identity) (expected : Option Mapping) (at : Time) (change : Change) (s : Store)
      (key : Str) (old : Mapping) (r : Commit × Store) (j : Str) (new : Mapping)
      → lookup key s.files ≡ some (some old)
      → Updates p n
          (settings_of change)
          (native_of change)
          identity
          expected
          at
          (apply_change change at)
          s
          j
          new
      → valid_mapping p n new ≡ true
      → r.1.files ≡ insert j (some new) s.files
      → Mapped change key old r
  unfolding valid_mapping_of
  Mapped-inserted identity expected at change s key old r j new h (k, before, (l, lv), u) vn e =
      let inserted = ap (lookup key) e ∙ lookup-insert j key (some new) s.files in
      elim (Bool-cases (str_eq j key)) [
        | inl same ↦
            let at_key : j ≡ key = (str_eq_iff j key).0 same in
            let same_mapping : before ≡ old = ground (arith, l, h, at_key) in
            let vo =
              and-true (valid_mapping p n before) (eq_identity before.identity identity) lv in
            (
              new,
              ground (arith, inserted, same),
              inr (λ id x f.
                  transition-checked (settings_of change) (native_of change) expected at
                    (apply_change change at) before new id x vo.0 vn
                    (update_mapping-Passed (settings_of change) (native_of change) expected at
                      (apply_change change at) before new u).0
                    (ap (λ m. find_session id (sessions m)) same_mapping ∙ f)),
            )
        | inr other ↦ (old, ground (arith, inserted, other, h), inl refl)
      ]

  Mapped-Wrote :
      (identity : Identity) (expected : Option Mapping) (at : Time) (change : Change) (s : Store)
      (key : Str) (old : Mapping) (r : Commit × Store)
      → lookup key s.files ≡ some (some old)
      → Wrote p n
          (Updates p n
            (settings_of change)
            (native_of change)
            identity
            expected
            at
            (apply_change change at)
            s)
          s
          r
      → Mapped change key old r
  Mapped-Wrote identity expected at change s key old r h w = elim w [
    | inl (same, o) ↦ Mapped-same change key old s r h same
    | inr (j, new, u, valid, (files, a, b)) ↦ elim files [
      | inl same ↦ Mapped-same change key old s r h same
      | inr inserted ↦
          Mapped-inserted identity expected at change s key old r j new h u valid inserted
    ]
  ]

  Wrote-if :
      (b : Bool) (io : Io) (identity : Identity) (expected : Option Mapping) (change : Change)
      (at : Time) (s : Store)
      → Wrote p n
          (Updates p n
            (settings_of change)
            (native_of change)
            identity
            expected
            at
            (apply_change change at)
            s)
          s
          (update_if p n b io identity expected change at s)
  unfolding update_if
  Wrote-if false io identity expected change at s = inl (refl, refl)
  Wrote-if true io identity expected change at s =
      update-Wrote p n (settings_of change) (native_of change) io identity expected at
        (apply_change change at) s

  -- An update changed nothing, or tried to write what it made of the mapping.
  pub update_call-Wrote :
      (io : Io) (identity : Identity) (expected : Option Mapping) (change : Change) (at : Time)
      (s : Store)
      → Wrote p n
          (Updates p n
            (settings_of change)
            (native_of change)
            identity
            expected
            at
            (apply_change change at)
            s)
          s
          (update p n io identity expected change at s)
  unfolding update
  update_call-Wrote io identity expected change at s =
      Wrote-if (acceptable p n identity expected change at) io identity expected change at s

  pub update-Mapped :
      (io : Io) (identity : Identity) (expected : Option Mapping) (change : Change) (at : Time)
      (s : Store) (key : Str) (old : Mapping)
      → lookup key s.files ≡ some (some old)
      → Mapped change key old (update p n io identity expected change at s)
  update-Mapped io identity expected change at s key old h =
      Mapped-Wrote identity expected at change s key old
        (update p n io identity expected change at s) h
        (update_call-Wrote io identity expected change at s)
