-- ===== src/State/Store/Change.antt =====
-- internal/agent/state/store.go: what an update in memory has passed, and what it keeps.
use agent_whiteboard.Base.{Bool, true, false, Option, none, some, ◌≡◌, refl, ◌⊎◌, inl, inr, arith}
use agent_whiteboard.State.{Time, Mapping}
use agent_whiteboard.State.Equal.{eq_mapping-Decides}
use agent_whiteboard.State.Transition.{
  SettingsTransition, NativeSessionTransition, snapshot_sessions, clamp_session_times,
  valid_session_transitions,
}
use agent_whiteboard.State.Store.{Result, ok, err}
use agent_whiteboard.State.Store.Access.{
  update_mapping, updated, checked, restored, unexpected, updated_expected,
}

-- The update was made of the mapping that was expected, and passed the check on its sessions.
abbrev pub Passed :
    Option SettingsTransition
    → Option NativeSessionTransition
    → Option Mapping
    → Time
    → (Mapping → Result Mapping)
    → Mapping
    → Mapping
    → Type 0
Passed settings native expected at change old new =
    (m : Mapping) × (change old ≡ ok m)
    × (valid_session_transitions settings native (snapshot_sessions old)
          (clamp_session_times (snapshot_sessions old) m)
        ≡ true)
    × (new ≡ restored at old (clamp_session_times (snapshot_sessions old) m))

expected-cases :
    (old : Mapping) (expected : Option Mapping)
    → unexpected expected old ≡ false
    → (expected ≡ none) ⊎ (expected ≡ some old)
unfolding unexpected
expected-cases old none h = inl refl
expected-cases old (some m) h = inr (ground (arith, eq_mapping-Decides old m))

module _ (settings : Option SettingsTransition) (native : Option NativeSessionTransition)
    (expected : Option Mapping) (at : Time) (change : Mapping → Result Mapping) where
  Passed-checked :
      (old m new : Mapping) (b : Bool)
      → change old ≡ ok m
      → valid_session_transitions settings native
          (snapshot_sessions old)
          (clamp_session_times (snapshot_sessions old) m)
        ≡ b
      → checked at old (clamp_session_times (snapshot_sessions old) m) b ≡ ok new
      → Passed settings native expected at change old new
  unfolding checked
  Passed-checked old m new false c v h = ground arith
  Passed-checked old m new true c v h = (m, c, v, ground arith)

  Passed-updated :
      (old new : Mapping) (r : Result Mapping)
      → change old ≡ r
      → updated settings native at old r ≡ ok new
      → Passed settings native expected at change old new
  unfolding updated
  Passed-updated old new (err e) c h = ground arith
  Passed-updated old new (ok m) c h = Passed-checked old m new _ c refl h

  Passed-expected :
      (old new : Mapping) (b : Bool)
      → updated_expected settings native b at change old ≡ ok new
      → (b ≡ false) × Passed settings native expected at change old new
  unfolding updated_expected
  Passed-expected old new true h = ground arith
  Passed-expected old new false h = (refl, Passed-updated old new _ refl h)

  pub update_mapping-Passed :
      (old new : Mapping)
      → update_mapping settings native expected at change old ≡ ok new
      → Passed settings native expected at change old new
        × ((expected ≡ none) ⊎ (expected ≡ some old))
  unfolding update_mapping
  update_mapping-Passed old new h =
      let (u, v) = Passed-expected old new (unexpected expected old) h in
      (v, expected-cases old expected u)
