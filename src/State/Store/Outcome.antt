-- ===== src/State/Store/Outcome.antt =====
-- internal/agent/state/store.go: what the outcome of a commit or of a removal says about the files.
use agent_whiteboard.Base.{
  Bool, true, false, Option, none, some, Str, lookup, insert, ◌≡◌, refl, sym, ◌∙◌, ap, ◌⊎◌, inl,
  inr, arith, lookup-insert, str_eq_refl,
}
use agent_whiteboard.Agent.{Platform}
use agent_whiteboard.Config.Origin.{Network}
use agent_whiteboard.State.{Mapping}
use agent_whiteboard.State.Equal.{eq_mapping, eq_option-Decides, eq_mapping-Decides}
use agent_whiteboard.State.Valid.{valid_mapping}
use agent_whiteboard.State.Store.{
  CommitOutcome, not_applied, applied, uncertain, Io, Store, Commit, Attempt, done, failed,
  verify_layout, inspect_expected, publish, commit_verified, commit_encoded, finish,
  finish_verified, inspected, write_file, layout_changed, invalid, storage,
}
use agent_whiteboard.State.Store.Access.{commit_locked}

-- The files after a commit are those before or those with the mapping; what the outcome says is so.
abbrev pub Written : Str → Mapping → Store → Commit × Store → Type 0
Written key m s (c, t) =
    ((t.files ≡ s.files) ⊎ (t.files ≡ insert key (some m) s.files))
    × (c.outcome ≡ applied → lookup key t.files ≡ some (some m))
    × (c.outcome ≡ not_applied → t.files ≡ s.files)

pub files-verify_layout : (b : Bool) (s : Store) → (verify_layout b s).1.files ≡ s.files
unfolding verify_layout
files-verify_layout b s = ground arith

lookup-write :
    (key : Str) (m : Mapping) (s : Store) → lookup key (write_file key m s).files ≡ some (some m)
unfolding write_file
lookup-write key m s = ground (arith, lookup-insert key key (some m) s.files, str_eq_refl key)

pub finish-files : (io : Io) (e : _) (s : Store) → (finish io e s).1.files ≡ s.files
unfolding finish finish_verified
finish-files io e s = ground (arith, files-verify_layout io.end_verifies s)

pub finish_outcome : (io : Io) (e : _) (s : Store) → (finish io e s).0.outcome ≡ not_applied → ⊥
unfolding finish finish_verified
finish_outcome io e s h = ground arith

Written-finish :
    (io : Io) (e : _) (key : Str) (m : Mapping) (s t : Store)
    → (t.files ≡ s.files) ⊎ (t.files ≡ insert key (some m) s.files)
    → lookup key t.files ≡ some (some m)
    → Written key m s (finish io e t)
Written-finish io e key m s t files found =
    let same = finish-files io e t in
    (
      elim files [ inl h ↦ inl (same ∙ h) | inr h ↦ inr (same ∙ h) ],
      λ h. ap (lookup key) same ∙ found,
      λ h. absurd (finish_outcome io e t h),
    )

-- What the inspection found is so.
inspect-applied :
    (b : Bool) (m : Mapping) (file : Option (Option Mapping))
    → inspect_expected b m file ≡ applied
    → file ≡ some (some m)
unfolding inspect_expected
inspect-applied b m none h = ground arith
inspect-applied b m (some content) h =
    ground (arith, (eq_option-Decides eq_mapping eq_mapping-Decides content (some m)).0)

inspect-not_applied :
    (b : Bool) (m : Mapping) → inspect_expected b m (some (some m)) ≡ not_applied → ⊥
unfolding inspect_expected
inspect-not_applied b m h =
    ground (arith, (eq_option-Decides eq_mapping eq_mapping-Decides (some m) (some m)).1 refl)

Written-inspected :
    (io : Io) (o : CommitOutcome) (key : Str) (m : Mapping) (s t : Store)
    → (t.files ≡ s.files) ⊎ (t.files ≡ insert key (some m) s.files)
    → (o ≡ applied → lookup key t.files ≡ some (some m))
    → (o ≡ not_applied → t.files ≡ s.files)
    → Written key m s (inspected io o t)
unfolding inspected
Written-inspected io applied key m s t files found same =
    Written-finish io _ key m s t files (found refl)
Written-inspected io not_applied key m s t files found same = (files, λ h. ground arith, same)
Written-inspected io uncertain key m s t files found same =
    (files, λ h. ground arith, λ h. ground arith)

Written-publish :
    (io : Io) (a : Attempt) (key : Str) (m : Mapping) (s : Store)
    → Written key m s (publish io a key m s)
unfolding publish
Written-publish io done key m s =
    Written-finish io none key m s (write_file key m s) (inr (unfold write_file in refl))
      (lookup-write key m s)
Written-publish io (failed true) key m s =
    Written-inspected io _ key m s (write_file key m s) (inr (unfold write_file in refl))
      (λ h. lookup-write key m s)
      (λ h. absurd (
        inspect-not_applied io.inspectable m
          (sym (ap (inspect_expected io.inspectable m) (lookup-write key m s)) ∙ h)))
Written-publish io (failed false) key m s =
    Written-inspected io _ key m s s (inl refl) (inspect-applied io.inspectable m _) (λ h. refl)

-- A commit that does not write changes no file.
Written-fail :
    (key : Str) (m : Mapping) (e : _) (s t : Store)
    → t.files ≡ s.files
    → Written key m s (record { outcome = not_applied; error = some e }, t)
Written-fail key m e s t h = (inl h, λ a. ground arith, λ a. h)

-- A commit writes a valid mapping or nothing.
abbrev pub Committed : Bool → Str → Mapping → Store → Commit × Store → Type 0
Committed valid key m s r =
    Written key m s r × ((valid ≡ true) ⊎ ((r.1.files ≡ s.files) × (r.0.outcome ≡ not_applied)))

Written-encoded :
    (io : Io) (b : Bool) (key : Str) (m : Mapping) (s : Store)
    → Written key m s (commit_encoded io b key m s)
unfolding commit_encoded
Written-encoded io true key m s = Written-publish io io.attempt key m s
Written-encoded io false key m s = Written-fail key m storage s s refl

Committed-verified :
    (io : Io) (key : Str) (m : Mapping) (valid b : Bool) (s : Store)
    → Committed valid key m s (commit_verified io key m valid (b, s))
unfolding commit_verified
Committed-verified io key m valid false s =
    (Written-fail key m layout_changed s s refl, inr (refl, refl))
Committed-verified io key m false true s = (Written-fail key m invalid s s refl, inr (refl, refl))
Committed-verified io key m true true s = (Written-encoded io io.staged key m s, inl refl)

pub Committed-from :
    (valid : Bool) (key : Str) (m : Mapping) (s t : Store) (r : Commit × Store)
    → t.files ≡ s.files
    → Committed valid key m t r
    → Committed valid key m s r
Committed-from valid key m s t r h ((files, found, same), checked) = (
  (
    elim files [ inl e ↦ inl (e ∙ h) | inr e ↦ inr (e ∙ ap (insert key (some m)) h) ],
    found,
    λ o. same o ∙ h,
  ),
  elim checked [ inl v ↦ inl v | inr (e, o) ↦ inr (e ∙ h, o) ],
)

module _ (p : Platform) (n : Network) where
  pub commit_locked-Committed :
      (io : Io) (key : Str) (m : Mapping) (s : Store)
      → Committed (valid_mapping p n m) key m s (commit_locked p n io key m s)
  unfolding commit_locked
  commit_locked-Committed io key m s =
      let verified = verify_layout io.commit_verifies s in
      Committed-from (valid_mapping p n m) key m s verified.1
        (commit_verified io key m (valid_mapping p n m) verified)
        (files-verify_layout io.commit_verifies s)
        (Committed-verified io key m (valid_mapping p n m) verified.0 verified.1)
