-- ===== src/State/Calls/Committed.antt =====
-- internal/agent/state/store.go: how the committed revision of a session changes.
use agent_whiteboard.Base.{
  true, false, not, ◌||◌, Option, none, some, Str, str_eq_iff, lookup, is_some, ◌≡◌, refl, sym, ◌∙◌,
  ap, inl, inr, arith, and-true, or-true, not-true,
}
use agent_whiteboard.Agent.{Platform}
use agent_whiteboard.Config.Origin.{Network}
use agent_whiteboard.State.{
  Time, before, Identity, Revision, PreparedCommit, Session, Mapping, sessions,
}
use agent_whiteboard.State.Equal.{eq_option, eq_revision, eq_option-Decides, eq_revision-Decides}
use agent_whiteboard.State.Transition.{
  SettingsTransition, NativeSessionTransition, snapshot_of, valid_transition_to,
  committed_justified, resolves_prepared, acknowledged,
}
use agent_whiteboard.State.Transition.Index.{find_session}
use agent_whiteboard.State.Store.{Io, Store}
use agent_whiteboard.State.Calls.{Change, settings_of, native_of, update}
use agent_whiteboard.State.Calls.Checked.{update-Mapped}
use agent_whiteboard.State.Calls.Prepared.{is_some-false}

-- Why a session may have another committed revision than before: its prepared one was promoted, or the
-- page went back to the committed content, in a later revision.
pub data Justified : Session → Session → Type 0 where
  unchanged : {x t : Session} → t.committed ≡ x.committed → Justified x t
  promotion :
      {x t : Session} (p : PreparedCommit)
      → x.prepared ≡ some p
      → t.committed ≡ some p.revision
      → t.prepared ≡ none
      → t.observed ≡ none
      → Justified x t
  acknowledgement :
      {x t : Session} (old new : Revision)
      → x.prepared ≡ none
      → x.committed ≡ some old
      → t.committed ≡ some new
      → new.digest ≡ old.digest
      → before old.source_updated_at new.source_updated_at ≡ true
      → Justified x t

Justified-promotion :
    (x t : Session) (q : Option PreparedCommit) (new : Revision)
    → x.prepared ≡ q
    → t.committed ≡ some new
    → resolves_prepared q new t ≡ true
    → Justified x t
Justified-promotion x t none new e c h = ground arith
Justified-promotion x t (some p) new e c h =
    let (resolved, revision) = and-true _ (eq_revision new p.revision) h in
    let (prepared, observed) = and-true _ (not (is_some t.observed)) resolved in
    promotion p e (c ∙ ap some ((eq_revision-Decides new p.revision).0 revision))
      (is_some-false t.prepared (not-true (is_some t.prepared) prepared))
      (is_some-false t.observed (not-true (is_some t.observed) observed))

Justified-acknowledgement :
    (x t : Session) (q : Option PreparedCommit) (old observed : Option Revision) (new : Revision)
    → x.prepared ≡ q
    → x.committed ≡ old
    → t.committed ≡ some new
    → acknowledged q old observed new t ≡ true
    → Justified x t
Justified-acknowledgement x t (some p) old observed new e o c h = ground arith
Justified-acknowledgement x t none none observed new e o c h = ground arith
Justified-acknowledgement x t none (some old) none new e o c h = ground arith
Justified-acknowledgement x t none (some old) (some seen) new e o c h =
    acknowledgement old new e o c ((str_eq_iff new.digest old.digest).0 (ground (arith, h)))
      (ground (arith, h))

Justified-changed :
    (x t : Session) (new : Option Revision)
    → t.committed ≡ new
    → elim new [
      | none ↦ false
      | some committed ↦
          resolves_prepared x.prepared committed t
          || acknowledged x.prepared x.committed x.observed committed t
    ]
      ≡ true
    → Justified x t
Justified-changed x t none c h = ground arith
Justified-changed x t (some new) c h = elim (or-true (resolves_prepared x.prepared new t) _ h) [
  | inl promoted ↦ Justified-promotion x t x.prepared new refl c promoted
  | inr acked ↦
      Justified-acknowledgement x t x.prepared x.committed x.observed new refl refl c acked
]

committed_justified-Justified :
    (x t : Session) → committed_justified (snapshot_of x) t ≡ true → Justified x t
committed_justified-Justified x t h =
    elim (or-true (eq_option eq_revision x.committed t.committed) _ h) [
      | inl same ↦
          unchanged (
            sym
              ((eq_option-Decides eq_revision eq_revision-Decides x.committed t.committed).0 same))
      | inr changed ↦ Justified-changed x t t.committed refl changed
    ]

module _ (p : Platform) (n : Network) where
  checked-Justified :
      (settings : Option SettingsTransition) (native : Option NativeSessionTransition) (id : Str)
      (x t : Session) (found : Option Session)
      → found ≡ some t
      → valid_transition_to settings native id (snapshot_of x) found ≡ true
      → Justified x t
  unfolding valid_transition_to
  checked-Justified settings native id x t none e h = ground arith
  checked-Justified settings native id x t (some u) e h =
      let same : t ≡ u = ground (arith, e) in
      committed_justified-Justified x t
        (ap (committed_justified (snapshot_of x)) same ∙ (and-true _ _ h).1)

  -- A session that a stored mapping had before and after an update of the store, whatever the system
  -- answered, has its committed revision still; or it is the revision that was prepared, with nothing
  -- prepared or observed any more; or nothing was prepared, and it is a later revision of the content
  -- that was committed before.
  pub committed_changes :
      (io : Io) (identity : Identity) (expected : Option Mapping) (change : Change) (at : Time)
      (s : Store) (key : Str) (old new : Mapping) (id : Str) (x t : Session)
      → lookup key s.files ≡ some (some old)
      → find_session id (sessions old) ≡ some x
      → lookup key (update p n io identity expected change at s).1.files ≡ some (some new)
      → find_session id (sessions new) ≡ some t
      → Justified x t
  committed_changes io identity expected change at s key old new id x t l f l' f' =
      let (m, found, kept) = update-Mapped p n io identity expected change at s key old l in
      let same : m ≡ new = ground (arith, found, l') in
      let at_id = ap (λ y. find_session id (sessions y)) same ∙ f' in
      elim kept [
        | inl kept_mapping ↦
            let found_twice : some t ≡ some x =
              sym at_id ∙ ap (λ y. find_session id (sessions y)) kept_mapping ∙ f in
            let same_session : t ≡ x = ground (arith, found_twice) in
            unchanged (ap (λ (y : Session). y.committed) same_session)
        | inr checked ↦
            checked-Justified (settings_of change) (native_of change) id x t _ at_id
              (checked id x f)
      ]
