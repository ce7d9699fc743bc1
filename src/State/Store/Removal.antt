-- ===== src/State/Store/Removal.antt =====
-- internal/agent/state/store.go: what the outcome of a removal says about the files.
use agent_whiteboard.Base.{
  Bool, true, false, Option, none, some, Str, is_some, lookup, delete, ◌≡◌, refl, ◌∙◌, ap, ◌⊎◌, inl,
  inr, arith, lookup-delete, str_eq_refl,
}
use agent_whiteboard.State.Store.{
  not_applied, applied, Io, Store, Commit, Attempt, done, failed, StateError, storage,
  verify_layout, remove_locked, remove_verified, remove_file, removed_inspected, finish,
}
use agent_whiteboard.State.Store.Outcome.{files-verify_layout, finish-files, finish_outcome}

-- The files after a removal are those before or those without the key; what the outcome says is so.
abbrev pub Removed : Str → Store → Commit × Store → Type 0
Removed key s (c, t) =
    ((t.files ≡ s.files) ⊎ (t.files ≡ delete key s.files))
    × (c.outcome ≡ applied → lookup key t.files ≡ none)
    × (c.outcome ≡ not_applied → t.files ≡ s.files)

Removed-finish :
    (io : Io) (e : Option StateError) (key : Str) (s t : Store)
    → (t.files ≡ s.files) ⊎ (t.files ≡ delete key s.files)
    → lookup key t.files ≡ none
    → Removed key s (finish io e t)
Removed-finish io e key s t files absent =
    let same = finish-files io e t in
    (
      elim files [ inl h ↦ inl (same ∙ h) | inr h ↦ inr (same ∙ h) ],
      λ h. ap (lookup key) same ∙ absent,
      λ h. absurd (finish_outcome io e t h),
    )

lookup-deleted : (key : Str) (s : Store) → lookup key (delete key s.files) ≡ none
lookup-deleted key s = ground (arith, lookup-delete key key s.files, str_eq_refl key)

Removed-inspected :
    (io : Io) (inspectable : Bool) (key : Str) (found : Option (Option _)) (s t : Store)
    → (t.files ≡ s.files) ⊎ (t.files ≡ delete key s.files)
    → lookup key t.files ≡ found
    → (is_some found ≡ true → t.files ≡ s.files)
    → Removed key s (removed_inspected io inspectable (is_some found) t)
unfolding removed_inspected
Removed-inspected io false key found s t files h same =
    (files, λ o. ground arith, λ o. ground arith)
Removed-inspected io true key none s t files h same =
    Removed-finish io (some storage) key s t files h
Removed-inspected io true key (some m) s t files h same = (files, λ o. ground arith, λ o. same refl)

Removed-file :
    (io : Io) (a : Attempt) (key : Str) (s : Store) → Removed key s (remove_file io a key s)
unfolding remove_file
Removed-file io done key s =
    Removed-finish io none key s (record s { files = delete key s.files }) (inr refl)
      (lookup-deleted key s)
Removed-file io (failed true) key s =
    let t : Store = record s { files = delete key s.files } in
    Removed-inspected io io.inspectable key (lookup key t.files) s t (inr refl) refl
      (λ h. ground (arith, h, lookup-deleted key s))
Removed-file io (failed false) key s =
    Removed-inspected io io.inspectable key (lookup key s.files) s s (inl refl) refl (λ h. refl)

Removed-verified :
    (io : Io) (key : Str) (b : Bool) (s : Store) → Removed key s (remove_verified io key (b, s))
unfolding remove_verified
Removed-verified io key false s = (inl refl, λ o. ground arith, λ o. refl)
Removed-verified io key true s = Removed-file io io.attempt key s

pub Removed-from :
    (key : Str) (s t : Store) (r : Commit × Store)
    → t.files ≡ s.files
    → Removed key t r
    → Removed key s r
Removed-from key s t r h (files, absent, same) = (
  elim files [ inl e ↦ inl (e ∙ h) | inr e ↦ inr (e ∙ ap (delete key) h) ],
  absent,
  λ o. same o ∙ h,
)

pub remove_locked-Removed :
    (io : Io) (key : Str) (s : Store) → Removed key s (remove_locked io key s)
unfolding remove_locked
remove_locked-Removed io key s =
    let verified = verify_layout io.commit_verifies s in
    Removed-from key s verified.1 (remove_verified io key verified)
      (files-verify_layout io.commit_verifies s) (Removed-verified io key verified.0 verified.1)
