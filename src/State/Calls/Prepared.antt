-- ===== src/State/Calls/Prepared.antt =====
-- internal/agent/state/store.go: what becomes of a prepared revision, and how a committed one changes.
use agent_whiteboard.Base.{
  true, false, not, ◌&&◌, ◌||◌, Option, none, some, Str, str_eq, str_eq_iff, lookup, is_some, ◌≡◌,
  refl, sym, ◌∙◌, ap, inl, inr, arith, and-true, or-true, not-true,
}
use agent_whiteboard.Agent.{Platform}
use agent_whiteboard.Config.Origin.{Network}
use agent_whiteboard.State.{
  Time, Identity, PreparedCommit, Session, Mapping, sessions, commit_prepared, commit_accepted,
}
use agent_whiteboard.State.Equal.{
  eq_option, eq_revision, eq_prepared, eq_option-Decides, eq_revision-Decides, eq_prepared-Decides,
}
use agent_whiteboard.State.Transition.{
  SettingsTransition, NativeSessionTransition, snapshot_of, valid_transition_to, prepared_resolved,
  kept_or_accepted,
}
use agent_whiteboard.State.Transition.Index.{find_session}
use agent_whiteboard.State.Store.{Io, Store}
use agent_whiteboard.State.Calls.{Change, settings_of, native_of, update}
use agent_whiteboard.State.Calls.Checked.{update-Mapped}

-- What an update may make of a prepared revision: it stays, it is marked as accepted, it becomes the
-- committed one, or, while it is not accepted, it goes back to being the observed one.
pub data Resolved : PreparedCommit → Session → Type 0 where
  stays : {p : PreparedCommit} {t : Session} → t.prepared ≡ some p → Resolved p t
  accepted :
      {p : PreparedCommit} {t : Session}
      → p.phase ≡ commit_prepared
      → t.prepared ≡ some (record p { phase = commit_accepted })
      → Resolved p t
  committed :
      {p : PreparedCommit} {t : Session}
      → t.prepared ≡ none
      → t.committed ≡ some p.revision
      → t.observed ≡ none
      → Resolved p t
  rejected :
      {p : PreparedCommit} {t : Session}
      → p.phase ≡ commit_prepared
      → t.prepared ≡ none
      → t.observed ≡ some p.revision
      → Resolved p t

pub is_some-false {ℓ} : {A : Type ℓ} (o : Option A) → is_some o ≡ false → o ≡ none
is_some-false none h = refl
is_some-false (some a) h = ground arith

Resolved-kept :
    (p q : PreparedCommit) (t : Session)
    → t.prepared ≡ some q
    → kept_or_accepted p q ≡ true
    → Resolved p t
Resolved-kept p q t e h = elim (or-true (eq_prepared q p) _ h) [
  | inl same ↦ stays (e ∙ ap some ((eq_prepared-Decides q p).0 same))
  | inr marked ↦
      let phase : p.phase ≡ commit_prepared =
        (str_eq_iff p.phase commit_prepared).0 (ground (arith, marked)) in
      let marked_phase : q.phase ≡ commit_accepted =
        (str_eq_iff q.phase commit_accepted).0 (ground (arith, marked)) in
      let revision : q.revision ≡ p.revision =
        (eq_revision-Decides q.revision p.revision).0 (ground (arith, marked)) in
      let turn : q.turn_id ≡ p.turn_id =
        (str_eq_iff q.turn_id p.turn_id).0 (ground (arith, marked)) in
      accepted phase (e ∙ ap some (ground (arith, marked_phase, revision, turn)))
]

Resolved-none :
    (p : PreparedCommit) (t : Session)
    → t.prepared ≡ none
    → ((eq_option eq_revision t.committed (some p.revision) && not (is_some t.observed))
        || (str_eq p.phase commit_prepared && eq_option eq_revision t.observed (some p.revision)))
      ≡ true
    → Resolved p t
Resolved-none p t e h = elim (or-true _ _ h) [
  | inl c ↦
      let (revision, observed) = and-true _ (not (is_some t.observed)) c in
      committed e
        ((eq_option-Decides eq_revision eq_revision-Decides t.committed (some p.revision)).0
          revision)
        (is_some-false t.observed (not-true (is_some t.observed) observed))
  | inr r ↦
      let (phase, observed) = and-true (str_eq p.phase commit_prepared) _ r in
      rejected ((str_eq_iff p.phase commit_prepared).0 phase) e (
        (eq_option-Decides eq_revision eq_revision-Decides t.observed (some p.revision)).0 observed)
]

Resolved-resolved :
    (p : PreparedCommit) (t : Session) (q : Option PreparedCommit)
    → t.prepared ≡ q
    → prepared_resolved (some p) (record t { prepared = q }) ≡ true
    → Resolved p t
Resolved-resolved p t none e h = Resolved-none p t e h
Resolved-resolved p t (some q) e h = Resolved-kept p q t e h

module _ (p : Platform) (n : Network) where
  checked-Resolved :
      (settings : Option SettingsTransition) (native : Option NativeSessionTransition) (id : Str)
      (x : Session) (prepared : PreparedCommit) (found : Option Session)
      → x.prepared ≡ some prepared
      → valid_transition_to settings native id (snapshot_of x) found ≡ true
      → (t : Session) × (found ≡ some t) × Resolved prepared t
  unfolding valid_transition_to
  checked-Resolved settings native id x prepared none e h = absurd (ground (arith, e, h))
  checked-Resolved settings native id x prepared (some t) e h = (
    t,
    refl,
    Resolved-resolved prepared t t.prepared refl
        (ap (λ o. prepared_resolved o t) (sym e) ∙ (and-true _ _ (and-true _ _ h).0).1),
  )

  -- No update loses a prepared revision. Where a session of a stored mapping has one, then after any
  -- update through the store, of any identity and whatever the system answers, the file has a mapping
  -- with that session, and there the prepared revision stays, is marked as accepted, has become the
  -- committed revision with nothing observed, or, unless it was accepted, is the observed one again.
  pub prepared_survives :
      (io : Io) (identity : Identity) (expected : Option Mapping) (change : Change) (at : Time)
      (s : Store) (key : Str) (old : Mapping) (id : Str) (x : Session) (prepared : PreparedCommit)
      → lookup key s.files ≡ some (some old)
      → find_session id (sessions old) ≡ some x
      → x.prepared ≡ some prepared
      → (new : Mapping) × (t : Session) × (lookup key
            (update p n io identity expected change at s).1.files
          ≡ some (some new))
        × (find_session id (sessions new) ≡ some t)
        × Resolved prepared t
  prepared_survives io identity expected change at s key old id x prepared l f e =
      let (new, found, kept) = update-Mapped p n io identity expected change at s key old l in
      elim kept [
        | inl same ↦ (new, x, found, ap (λ m. find_session id (sessions m)) same ∙ f, stays e)
        | inr checked ↦
            let (t, at_id, resolved) =
              checked-Resolved (settings_of change) (native_of change) id x prepared _ e
                (checked id x f) in
            (new, t, found, at_id, resolved)
      ]
