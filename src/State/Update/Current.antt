-- ===== src/State/Update/Current.antt =====
-- internal/agent/state/store.go: what the updates of the current session made of it where they passed.
use agent_whiteboard.Base.{
  Bool, Option, none, some, Str, str_eq, str_eq_iff, ◌≡◌, refl, ◌∙◌, ap, arith, Bool-cases, inl,
  inr, if◌then◌else◌,
}
use agent_whiteboard.State.{
  Time, Revision, PreparedCommit, Session, Mapping, commit_prepared, commit_accepted,
}
use agent_whiteboard.State.Store.{Result, ok, err, StateError}
use agent_whiteboard.State.Update.{
  on_current, on_session, replaced, with_current, touch, observe_revision, acknowledge_committed,
  acknowledge_of, prepare_commit, prepared_of, prepared_found, accept, settle, promote_accepted,
  on_prepared, promote_prepared, promoted, mark_accepted, rejected, reconcile_prepared,
}

replaced-ok :
    (old m : Mapping) (r : Result Session)
    → replaced old r ≡ ok m
    → (s : Session) × (r ≡ ok s) × (m ≡ with_current old s)
unfolding replaced
replaced-ok old m (err e) h = absurd (ground arith)
replaced-ok old m (ok s) h = (s, refl, ground (arith, h))

on_session-ok :
    (e : StateError) (update : Session → Result Session) (old m : Mapping) (found : Option Session)
    → on_session e update old found ≡ ok m
    → (x : Session) × (s : Session) × (found ≡ some x)
      × (update x ≡ ok s)
      × (m ≡ with_current old s)
unfolding on_session
on_session-ok e update old m none h = absurd (ground arith)
on_session-ok e update old m (some x) h =
    let (s, u, w) = replaced-ok old m (update x) h in (x, s, refl, u, w)

pub on_current-ok :
    (e : StateError) (update : Session → Result Session) (old m : Mapping)
    → on_current e update old ≡ ok m
    → (x : Session) × (s : Session) × (old.current ≡ some x)
      × (update x ≡ ok s)
      × (m ≡ with_current old s)
unfolding on_current
on_current-ok e update old m = on_session-ok e update old m old.current

pub observe_revision-ok :
    (revision : Revision) (at : Time) (x s : Session)
    → observe_revision revision at x ≡ ok s
    → s ≡ touch at (record x { observed = some revision })
unfolding observe_revision
observe_revision-ok revision at x s h = ground (arith, h)

acknowledge_of-ok :
    (revision : Revision) (at : Time) (x s : Session) (committed observed : Revision)
    → acknowledge_of revision at x committed observed ≡ ok s
    → s ≡ touch at (record x { committed = some revision; observed = none })
unfolding acknowledge_of
acknowledge_of-ok revision at x s committed observed h = ground (arith, h)

pub acknowledge_committed-ok :
    (revision : Revision) (at : Time) (x s : Session)
    → acknowledge_committed revision at x ≡ ok s
    → s ≡ touch at (record x { committed = some revision; observed = none })
unfolding acknowledge_committed
acknowledge_committed-ok revision at x s h = ground (arith, h, acknowledge_of-ok revision at x s)

pub prepare_commit-ok :
    (revision : Revision) (turn_id : Str) (at : Time) (x s : Session)
    → x.prepared ≡ none
    → prepare_commit revision turn_id at x ≡ ok s
    → s
      ≡ touch at
          (record x { observed = some revision; prepared = some (prepared_of revision turn_id) })
unfolding prepare_commit
prepare_commit-ok revision turn_id at x s e h = ground (arith, e, h)

prepared_found-ok :
    (turn_id : Str) (update : PreparedCommit → Session → Result Session) (x s : Session)
    (found : Option PreparedCommit)
    → prepared_found turn_id update x found ≡ ok s
    → (q : PreparedCommit) × (found ≡ some q) × (q.turn_id ≡ turn_id) × (update q x ≡ ok s)
unfolding prepared_found
prepared_found-ok turn_id update x s none h = absurd (ground arith)
prepared_found-ok turn_id update x s (some q) h =
    (q, refl, ground (arith, h, str_eq_iff q.turn_id turn_id), ground (arith, h))

-- The prepared revision was that of the turn, and this is what was done with it.
on_prepared-ok :
    (turn_id : Str) (update : PreparedCommit → Session → Result Session) (x s : Session)
    → on_prepared turn_id update x ≡ ok s
    → (q : PreparedCommit) × (x.prepared ≡ some q) × (q.turn_id ≡ turn_id) × (update q x ≡ ok s)
unfolding on_prepared
on_prepared-ok turn_id update x s = prepared_found-ok turn_id update x s x.prepared

pub promote_prepared-ok :
    (turn_id : Str) (at : Time) (x s : Session)
    → promote_prepared turn_id at x ≡ ok s
    → (q : PreparedCommit) × (x.prepared ≡ some q) × (s ≡ promoted q at x)
unfolding promote_prepared
promote_prepared-ok turn_id at x s h =
    let (q, e, t, u) = on_prepared-ok turn_id (promote_accepted at) x s h in
    (q, e, ground (arith, u))

-- Marking a record that is marked leaves it.
accept-ok :
    (at : Time) (q : PreparedCommit) (x s : Session)
    → x.prepared ≡ some q
    → accept at q x ≡ ok s
    → s ≡ touch at (record x { prepared = some (record q { phase = commit_accepted }) })
accept-ok at q x s e h = elim (Bool-cases (str_eq q.phase commit_prepared)) [
  | inl prepared ↦ ground (arith, h, prepared)
  | inr other ↦
      let phase : q.phase ≡ commit_accepted =
        (str_eq_iff q.phase commit_accepted).0 (ground (arith, h, other)) in
      let touched : s ≡ touch at x = ground (arith, h, other) in
      touched
      ∙ ap (λ o. touch at (record x { prepared = o }))
          (e ∙ ap (λ f. some (record q { phase = f })) phase)
]

pub mark_accepted-ok :
    (turn_id : Str) (at : Time) (x s : Session)
    → mark_accepted turn_id at x ≡ ok s
    → (q : PreparedCommit) × (x.prepared ≡ some q)
      × (q.turn_id ≡ turn_id)
      × (s ≡ touch at (record x { prepared = some (record q { phase = commit_accepted }) }))
unfolding mark_accepted
mark_accepted-ok turn_id at x s h =
    let (q, e, t, u) = on_prepared-ok turn_id (accept at) x s h in (q, e, t, accept-ok at q x s e u)

pub reconcile_prepared-ok :
    (turn_id : Str) (accepted : Bool) (at : Time) (x s : Session)
    → reconcile_prepared turn_id accepted at x ≡ ok s
    → (q : PreparedCommit) × (x.prepared ≡ some q)
      × (s ≡ (if accepted then promoted q at x else rejected q at x))
unfolding reconcile_prepared
reconcile_prepared-ok turn_id accepted at x s h =
    let (q, e, t, u) = on_prepared-ok turn_id (settle accepted at) x s h in
    (q, e, ground (arith, u))
