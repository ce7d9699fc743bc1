-- ===== src/State/Store/Wrote.antt =====
-- internal/agent/state/store.go: what a call wrote or removed, whatever the system answered.
use agent_whiteboard.Base.{
  Bool, true, false, Option, none, some, Str, lookup, ◌≡◌, refl, sym, ◌∙◌, ap, ◌⊎◌, inl, inr, subst,
}
use agent_whiteboard.Agent.{Platform}
use agent_whiteboard.Config.Origin.{Network}
use agent_whiteboard.State.{Time, Identity, Session, Mapping}
use agent_whiteboard.State.Valid.{valid_mapping, conversation_key}
use agent_whiteboard.State.Transition.{SettingsTransition, NativeSessionTransition}
use agent_whiteboard.State.Store.{Io, Store, Commit, Result, ok, err}
use agent_whiteboard.State.Store.Access.{
  load_locked, update_mapping, update_at, update_loaded, first_mapping, create_absent,
  commit_update, update_at_expected_transition, commit_locked, create, create_at, remove_loaded,
  remove_at, remove,
}
use agent_whiteboard.State.Store.Removal.{Removed, Removed-from, remove_locked-Removed}
use agent_whiteboard.State.Store.Outcome.{Written, Committed-from, commit_locked-Committed}
use agent_whiteboard.State.Store.Effect.{Loaded, Untouched, load_locked-Loaded, on_key-cases}

module _ (p : Platform) (n : Network) where
  -- A call that changed nothing, or that tried to write a valid mapping of which `P` holds.
  abbrev pub Wrote : (Str → Mapping → Type 0) → Store → Commit × Store → Type 0
  Wrote P s r =
      Untouched s r
      ⊎ ((key : Str) × (new : Mapping) × P key new
          × (valid_mapping p n new ≡ true)
          × Written key new s r)

  pub Wrote-commit :
      (P : Str → Mapping → Type 0) (io : Io) (key : Str) (m : Mapping) (s t : Store)
      → t.files ≡ s.files
      → P key m
      → Wrote P s (commit_locked p n io key m t)
  Wrote-commit P io key m s t h holds =
      let (written, checked) =
        Committed-from (valid_mapping p n m) key m s t (commit_locked p n io key m t) h
          (commit_locked-Committed p n io key m t) in
      elim checked [
        | inl valid ↦ inr (key, m, holds, valid, written)
        | inr untouched ↦ inl untouched
      ]

  -- The mapping of a new conversation has a key without a file.
  abbrev pub Creates : Identity → Session → Time → Store → Str → Mapping → Type 0
  Creates identity current at s key new =
      (conversation_key p n identity ≡ some key)
      × (lookup key s.files ≡ none)
      × (new ≡ first_mapping identity current at)

  Wrote-absent :
      (io : Io) (identity : Identity) (current : Session) (at : Time) (key : Str) (b : Bool)
      (file : Option (Option Mapping)) (s t : Store)
      → t.files ≡ s.files
      → conversation_key p n identity ≡ some key
      → lookup key s.files ≡ file
      → Wrote
          (Creates identity current at s)
          s
          (create_absent p n io key (first_mapping identity current at) b file t)
  unfolding create_absent
  Wrote-absent io identity current at key false file s t h k f = inl (h, refl)
  Wrote-absent io identity current at key true (some m) s t h k f = inl (h, refl)
  Wrote-absent io identity current at key true none s t h k f =
      Wrote-commit (Creates identity current at s) io key (first_mapping identity current at) s t h
        (k, f, refl)

  pub create-Wrote :
      (io : Io) (identity : Identity) (current : Session) (at : Time) (s : Store)
      → Wrote (Creates identity current at s) s (create p n io identity current at s)
  unfolding create create_at
  create-Wrote io identity current at s =
      elim (on_key-cases p n (create_at p n io identity current at) io.begin_verifies identity s) [
        | inl u ↦ inl u
        | inr (key, t, h, k, e) ↦ subst (Wrote (Creates identity current at s) s) (sym e) (
            Wrote-absent io identity current at key io.readable (lookup key t.files) s t h k
              (ap (lookup key) (sym h)))
      ]

  remove_loaded-Removed :
      (io : Io) (key : Str) (r : Result Mapping) (s : Store)
      → Untouched s (remove_loaded io key r s) ⊎ Removed key s (remove_loaded io key r s)
  unfolding remove_loaded
  remove_loaded-Removed io key (err e) s = inl (refl, refl)
  remove_loaded-Removed io key (ok m) s = inr (remove_locked-Removed io key s)

  pub remove-Removed :
      (io : Io) (identity : Identity) (s : Store)
      → Untouched s (remove p n io identity s)
        ⊎ ((key : Str) × Removed key s (remove p n io identity s))
  unfolding remove remove_at
  remove-Removed io identity s =
      elim (on_key-cases p n (remove_at p n io identity) io.begin_verifies identity s) [
        | inl u ↦ inl u
        | inr (key, t, h, k, e) ↦
            elim (remove_loaded-Removed io key (load_locked p n io.readable identity key t) t) [
              | inl (same, o) ↦ inl (ap (λ r. r.1.files) e ∙ same ∙ h, ap (λ r. r.0.outcome) e ∙ o)
              | inr w ↦ inr (
                key,
                subst (Removed key s) (sym e)
                    (Removed-from key s t (remove_at p n io identity key t) h w),
              )
            ]
      ]

  module _ (settings : Option SettingsTransition) (native : Option NativeSessionTransition) where
    -- The mapping that an update made of the one that the file had.
    abbrev pub Updates :
        Identity
        → Option Mapping
        → Time
        → (Mapping → Result Mapping)
        → Store
        → Str
        → Mapping
        → Type 0
    Updates identity expected at update s key new =
        (conversation_key p n identity ≡ some key)
        × (old : Mapping) × Loaded p n identity key s old
        × (update_mapping settings native expected at update old ≡ ok new)

    Wrote-updated :
        (io : Io) (identity : Identity) (expected : Option Mapping) (at : Time)
        (update : Mapping → Result Mapping) (key : Str) (old : Mapping) (r : Result Mapping)
        (s t : Store)
        → t.files ≡ s.files
        → conversation_key p n identity ≡ some key
        → Loaded p n identity key s old
        → update_mapping settings native expected at update old ≡ r
        → Wrote (Updates identity expected at update s) s (commit_update p n io key r t)
    unfolding commit_update
    Wrote-updated io identity expected at update key old (err e) s t h k l u = inl (h, refl)
    Wrote-updated io identity expected at update key old (ok m) s t h k l u =
        Wrote-commit (Updates identity expected at update s) io key m s t h (k, old, l, u)

    Wrote-loaded :
        (io : Io) (identity : Identity) (expected : Option Mapping) (at : Time)
        (update : Mapping → Result Mapping) (key : Str) (r : Result Mapping) (s t : Store)
        → t.files ≡ s.files
        → conversation_key p n identity ≡ some key
        → load_locked p n io.readable identity key t ≡ r
        → Wrote
            (Updates identity expected at update s)
            s
            (update_loaded p n settings native io expected at update key r t)
    unfolding update_loaded
    Wrote-loaded io identity expected at update key (err e) s t h k l = inl (h, refl)
    Wrote-loaded io identity expected at update key (ok old) s t h k l =
        let (found, valid) = load_locked-Loaded p n io.readable identity key t old l in
        Wrote-updated io identity expected at update key old _ s t h k
          (ap (lookup key) (sym h) ∙ found, valid) refl

    pub update-Wrote :
        (io : Io) (identity : Identity) (expected : Option Mapping) (at : Time)
        (update : Mapping → Result Mapping) (s : Store)
        → Wrote
            (Updates identity expected at update s)
            s
            (update_at_expected_transition p n settings native io identity expected at update s)
    unfolding update_at_expected_transition update_at
    update-Wrote io identity expected at update s =
        elim (on_key-cases p n (update_at p n settings native io identity expected at update)
          io.begin_verifies identity s) [
            | inl u ↦ inl u
            | inr (key, t, h, k, e) ↦
                subst (Wrote (Updates identity expected at update s) s) (sym e)
                  (Wrote-loaded io identity expected at update key _ s t h k refl)
          ]
