-- ===== src/State/Calls/Sound.antt =====
-- internal/agent/state/store.go: every call keeps the files of the store such that `decodeMapping`
-- accepts them for their own key.
use agent_whiteboard.Base.{
  not, ◌&&◌, is_empty, Bool, true, false, List, [], ◌∷◌, Option, none, some, Str, is_some, ◌≡◌,
  refl, sym, ◌∙◌, ap, inl, inr, arith, subst, str_eq, Bool-cases, and-true,
}
use agent_whiteboard.Agent.{Platform}
use agent_whiteboard.Common.Id.{valid_id}
use agent_whiteboard.Config.Origin.{Network}
use agent_whiteboard.State.{Time, later_time, Identity, Session, Mapping}
use agent_whiteboard.State.Equal.{eq_identity, eq_identity-Decides}
use agent_whiteboard.State.Valid.{valid_mapping, valid_mapping_of, conversation_key}
use agent_whiteboard.State.Transition.{SettingsTransition, NativeSessionTransition}
use agent_whiteboard.State.Store.{Io, Store, Result, ok, err, fail, remove_locked, close}
use agent_whiteboard.State.Store.Access.{
  on_key, update_at_expected_transition, commit_locked, load_locked, create, remove,
}
use agent_whiteboard.State.Store.Removal.{remove_locked-Removed}
use agent_whiteboard.State.Store.Change.{update_mapping-Passed}
use agent_whiteboard.State.Store.Effect.{Loaded, on_key-cases, load_locked-Loaded}
use agent_whiteboard.State.Store.Wrote.{
  Creates, Updates, Wrote-commit, create-Wrote, update-Wrote, remove-Removed,
}
use agent_whiteboard.State.Update.{take_archive}
use agent_whiteboard.State.Calls.{
  Change, Call, creates, updates, removes_session, removes, closes, apply_change, settings_of,
  native_of, acceptable, update, without_session, commit_removal, remove_session_loaded,
  remove_session_at, remove_session, step, run, update_if, without_session_if, without_archive,
  remaining,
}
use agent_whiteboard.State.Calls.Kept.{Sound, Sound-same, Sound-Wrote, Sound-Removed}

without_archive-identity :
    (m new : Mapping) (found : Option (Session × List Session))
    → without_archive m found ≡ some new
    → new.identity ≡ m.identity
unfolding without_archive
without_archive-identity m new none h = ground arith
without_archive-identity m new (some (s, others)) h = ground arith

without_if-identity :
    (b : Bool) (id : Str) (m new : Mapping)
    → without_session_if b id m ≡ some new
    → new.identity ≡ m.identity
unfolding without_session_if
without_if-identity true id m new h = ground arith
without_if-identity false id m new h = without_archive-identity m new (take_archive id m.archives) h

without_session-identity :
    (id : Str) (m new : Mapping) → without_session id m ≡ some new → new.identity ≡ m.identity
unfolding without_session
without_session-identity id m new h =
    without_if-identity (elim m.current [ none ↦ false | some s ↦ str_eq s.conversation_id id ]) id
      m new h

module _ (p : Platform) (n : Network) where
  Loaded-identity :
      (identity : Identity) (key : Str) (s : Store) (m : Mapping)
      → Loaded p n identity key s m
      → m.identity ≡ identity
  unfolding valid_mapping_of
  Loaded-identity identity key s m l =
      (eq_identity-Decides m.identity identity).0
        (and-true (valid_mapping p n m) (eq_identity m.identity identity) l.1).1

  create-Sound :
      (io : Io) (identity : Identity) (session : Session) (at : Time) (s : Store)
      → Sound p n s
      → Sound p n (create p n io identity session at s).1
  create-Sound io identity session at s =
      Sound-Wrote p n (Creates p n identity session at s) s (create p n io identity session at s)
        (λ key new c. ap (λ m. conversation_key p n m.identity) c.2 ∙ c.0)
        (create-Wrote p n io identity session at s)

  Updates-key :
      (settings : Option SettingsTransition) (native : Option NativeSessionTransition)
      (identity : Identity) (expected : Option Mapping) (at : Time)
      (change : Mapping → Result Mapping) (s : Store) (key : Str) (new : Mapping)
      → Updates p n settings native identity expected at change s key new
      → conversation_key p n new.identity ≡ some key
  Updates-key settings native identity expected at change s key new (k, old, l, u) =
      let (m, c, v, e) = (update_mapping-Passed settings native expected at change old new u).0 in
      ap (λ x. conversation_key p n x.identity) e
      ∙ ap (conversation_key p n) (Loaded-identity identity key s old l)
      ∙ k

  accepted-Sound :
      (io : Io) (identity : Identity) (expected : Option Mapping) (change : Change) (at : Time)
      (s : Store) (b : Bool)
      → Sound p n s
      → Sound p n (update_if p n b io identity expected change at s).1
  unfolding update_if
  accepted-Sound io identity expected change at s false sound = sound
  accepted-Sound io identity expected change at s true sound =
      Sound-Wrote p n
        (Updates p n (settings_of change) (native_of change) identity expected at
          (apply_change change at) s)
        s
        (update_at_expected_transition p n (settings_of change) (native_of change) io identity
          expected at (apply_change change at) s)
        (Updates-key (settings_of change) (native_of change) identity expected at
          (apply_change change at) s)
        (update-Wrote p n (settings_of change) (native_of change) io identity expected at
          (apply_change change at) s)
        sound

  update-Sound :
      (io : Io) (identity : Identity) (expected : Option Mapping) (change : Change) (at : Time)
      (s : Store)
      → Sound p n s
      → Sound p n (update p n io identity expected change at s).1
  unfolding update
  update-Sound io identity expected change at s sound =
      accepted-Sound io identity expected change at s (acceptable p n identity expected change at)
        sound

  remaining-Sound :
      (io : Io) (at : Time) (key : Str) (b : Bool) (m : Mapping) (s t : Store)
      → t.files ≡ s.files
      → conversation_key p n m.identity ≡ some key
      → Sound p n s
      → Sound p n (remaining p n io at key b m t).1
  unfolding remaining
  remaining-Sound io at key true m s t h k sound =
      Sound-Removed p n key t (remove_locked io key t) (remove_locked-Removed io key t)
        (Sound-same p n s t h sound)
  remaining-Sound io at key false m s t h k sound =
      let touched : Mapping = record m { updated_at = later_time m.updated_at at } in
      Sound-Wrote p n (λ j new. conversation_key p n new.identity ≡ some j) s
        (commit_locked p n io key touched t) (λ j new holds. holds)
        (Wrote-commit p n (λ j new. conversation_key p n new.identity ≡ some j) io key touched s t h
          k)
        sound

  removal-Sound :
      (io : Io) (at : Time) (key : Str) (m : Option Mapping) (s t : Store)
      → t.files ≡ s.files
      → ((x : Mapping) → m ≡ some x → conversation_key p n x.identity ≡ some key)
      → Sound p n s
      → Sound p n (commit_removal p n io at key m t).1
  unfolding commit_removal
  removal-Sound io at key none s t h k sound = Sound-same p n s t h sound
  removal-Sound io at key (some m) s t h k sound =
      remaining-Sound io at key (not (is_some m.current) && is_empty m.archives) m s t h (k m refl)
        sound

  remove_session_loaded-Sound :
      (io : Io) (identity : Identity) (id : Str) (at : Time) (key : Str) (r : Result Mapping)
      (s t : Store)
      → t.files ≡ s.files
      → conversation_key p n identity ≡ some key
      → load_locked p n io.readable identity key t ≡ r
      → Sound p n s
      → Sound p n (remove_session_loaded p n io id at key r t).1
  unfolding remove_session_loaded
  remove_session_loaded-Sound io identity id at key (err e) s t h k l sound =
      Sound-same p n s t h sound
  remove_session_loaded-Sound io identity id at key (ok m) s t h k l sound =
      removal-Sound io at key (without_session id m) s t h
        (λ x e.
          ap (conversation_key p n) (
            without_session-identity id m x e
            ∙ Loaded-identity identity key t m
                (load_locked-Loaded p n io.readable identity key t m l))
          ∙ k)
        sound

  remove_session_at-Sound :
      (io : Io) (identity : Identity) (id : Str) (at : Time) (s : Store)
      → Sound p n s
      → Sound p n
          (on_key p n fail (remove_session_at p n io identity id at) io.begin_verifies identity s).1
  unfolding remove_session_at
  remove_session_at-Sound io identity id at s sound =
      elim (on_key-cases p n (remove_session_at p n io identity id at) io.begin_verifies identity
        s) [
          | inl (same, o) ↦
              Sound-same p n s
                (on_key p n fail (remove_session_at p n io identity id at) io.begin_verifies
                  identity s).1
                same sound
          | inr (key, t, h, k, e) ↦
              subst (λ r. Sound p n r.1) (sym e)
                (remove_session_loaded-Sound io identity id at key _ s t h k refl sound)
        ]

  remove_session-Sound :
      (io : Io) (identity : Identity) (id : Str) (at : Time) (s : Store)
      → Sound p n s
      → Sound p n (remove_session p n io identity id at s).1
  unfolding remove_session
  remove_session-Sound io identity id at s sound = elim (Bool-cases (valid_id id)) [
    | inl h ↦ rw h (remove_session_at-Sound io identity id at s sound)
    | inr h ↦ rw h sound
  ]

  remove-Sound :
      (io : Io) (identity : Identity) (s : Store)
      → Sound p n s
      → Sound p n (remove p n io identity s).1
  remove-Sound io identity s sound = elim (remove-Removed p n io identity s) [
    | inl (same, o) ↦ Sound-same p n s (remove p n io identity s).1 same sound
    | inr (key, w) ↦ Sound-Removed p n key s (remove p n io identity s) w sound
  ]

  step-Sound : (call : Call) (s : Store) → Sound p n s → Sound p n (step p n call s)
  unfolding step
  step-Sound (creates io identity session at) s = create-Sound io identity session at s
  step-Sound (updates io identity expected change at) s =
      update-Sound io identity expected change at s
  step-Sound (removes_session io identity id at) s = remove_session-Sound io identity id at s
  step-Sound (removes io identity) s = remove-Sound io identity s
  step-Sound closes s = Sound-same p n s (close s) refl

  -- Whatever calls are made and whatever the system answers to them, each file of the store that holds
  -- a mapping holds one that is valid and belongs to an identity with the file's key, if this was so
  -- before: sessions of one conversation or native session are never there twice, and a prepared
  -- revision is the observed one.
  pub store_run-Sound : (calls : List Call) (s : Store) → Sound p n s → Sound p n (run p n calls s)
  unfolding run
  store_run-Sound [] s sound = sound
  store_run-Sound (call ∷ calls) s sound =
      store_run-Sound calls (step p n call s) (step-Sound call s sound)
