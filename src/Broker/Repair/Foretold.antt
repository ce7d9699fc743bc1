-- ===== src/Broker/Repair/Foretold.antt =====
-- internal/agent/broker/state_repair.go: the mapping that the broker foretells of each update of the
-- current session, against what the store writes.
use agent_whiteboard.Base.{
  List, subst, insert, Bool, true, false, not, Option, none, some, Str, str_eq_iff, str_eq_refl,
  lookup, lookup-insert, is_some, ◌≡◌, refl, sym, ◌∙◌, ap, arith, and-true, not-true, ◌⊎◌, inl, inr,
}
use agent_whiteboard.Agent.{Platform}
use agent_whiteboard.Config.Origin.{Network}
use agent_whiteboard.State.{Time, Identity, Session, Mapping, commit_accepted}
use agent_whiteboard.State.Equal.{eq_identity}
use agent_whiteboard.State.Valid.{valid_mapping, valid_mapping_of, conversation_key}
use agent_whiteboard.State.Transition.{snapshot_sessions, clamp_session_times}
use agent_whiteboard.State.Store.{
  Commit, Io, Store, ok, missing, CommitOutcome, applied, not_applied, uncertain,
}
use agent_whiteboard.State.Store.Access.{restored}
use agent_whiteboard.State.Store.Outcome.{Written}
use agent_whiteboard.State.Store.Change.{update_mapping-Passed}
use agent_whiteboard.State.Store.Wrote.{Updates}
use agent_whiteboard.State.Update.{
  with_current, touch, prepared_of, observe_revision, acknowledge_committed, prepare_commit,
  promote_prepared, mark_accepted, reconcile_prepared,
}
use agent_whiteboard.State.Update.Current.{
  on_current-ok, observe_revision-ok, acknowledge_committed-ok, prepare_commit-ok,
  promote_prepared-ok, mark_accepted-ok, reconcile_prepared-ok,
}
use agent_whiteboard.State.Calls.{
  Change, observes, acknowledges, prepares, accepts, promotes, reconciles, starts, restores,
  changes_settings, replaces_native, apply_change, settings_of, native_of, update,
}
use agent_whiteboard.State.Calls.Prepared.{is_some-false}
use agent_whiteboard.State.Calls.Checked.{update_call-Wrote}
use agent_whiteboard.Broker.Repair.{
  moved, on_current, prepared_mapping, accepted_mapping, accepted_session, promoted_mapping,
  promoted_session, reconciled_mapping, rejected_session, prepared_session, acknowledged_session,
  observed_session, acknowledged_mapping, observed_mapping,
}
use agent_whiteboard.Broker.Repair.Predict.{restored-moved}

-- The mapping that the broker foretells of an update.
abbrev pub foretold : Change → Time → Mapping → Mapping
foretold (observes revision) at = observed_mapping revision at
foretold (acknowledges revision) at = acknowledged_mapping revision at
foretold (prepares revision turn_id) at = prepared_mapping revision turn_id at
foretold (accepts turn_id) at = accepted_mapping turn_id at
foretold (promotes turn_id) at = promoted_mapping at
foretold (reconciles turn_id accepted) at = reconciled_mapping accepted at
foretold _ at = λ m. m

abbrev nothing_prepared : Option Session → Bool
nothing_prepared none = false
nothing_prepared (some s) = not (is_some s.prepared)

-- Whether the broker foretells it: a revision is prepared only where none is.
abbrev pub foreseen : Change → Mapping → Bool
foreseen (observes revision) m = true
foreseen (acknowledges revision) m = true
foreseen (prepares revision turn_id) m = nothing_prepared m.current
foreseen (accepts turn_id) m = true
foreseen (promotes turn_id) m = true
foreseen (reconciles turn_id accepted) m = true
foreseen _ m = false

lookup-inserted :
    (key : Str) (file : Option Mapping) (files : List (Str × Option Mapping))
    → lookup key (insert key file files) ≡ some file
lookup-inserted key file files = ground (arith, lookup-insert key key file files, str_eq_refl key)

module _ (p : Platform) (n : Network) where
  -- An update that touched the current session as the broker foretold.
  touched-foretold :
      (old m : Mapping) (x s y : Session) (at : Time) (f : Session → Mapping → Mapping)
      → valid_mapping p n old ≡ true
      → at.utc ≡ true
      → old.current ≡ some x
      → m ≡ with_current old s
      → s ≡ touch at y
      → y.conversation_id ≡ x.conversation_id
      → y.updated_at ≡ x.updated_at
      → f x old ≡ moved at y old
      → restored at old (clamp_session_times (snapshot_sessions old) m) ≡ on_current f old
  touched-foretold old m x s y at f valid utc c w t id time h =
      ap (λ k. restored at old (clamp_session_times (snapshot_sessions old) k))
        (w ∙ ap (with_current old) t)
      ∙ restored-moved p n old x y at valid c id time utc
      ∙ sym h
      ∙ sym (ap (λ (o : Option Session). elim o [ none ↦ old | some z ↦ f z old ]) c)

  restored-foretold :
      (change : Change) (at : Time) (old m : Mapping)
      → valid_mapping p n old ≡ true
      → at.utc ≡ true
      → foreseen change old ≡ true
      → apply_change change at old ≡ ok m
      → restored at old (clamp_session_times (snapshot_sessions old) m) ≡ foretold change at old
  unfolding apply_change observed_mapping acknowledged_mapping prepared_mapping accepted_mapping
      promoted_mapping reconciled_mapping
  restored-foretold (observes revision) at old m valid utc seen h =
      let (x, s, c, u, w) = on_current-ok missing (observe_revision revision at) old m h in
      touched-foretold old m x s (record x { observed = some revision }) at
        (observed_session revision at) valid utc c w (observe_revision-ok revision at x s u) refl
        refl refl
  restored-foretold (acknowledges revision) at old m valid utc seen h =
      let (x, s, c, u, w) = on_current-ok missing (acknowledge_committed revision at) old m h in
      touched-foretold old m x s (record x { committed = some revision; observed = none }) at
        (acknowledged_session revision at) valid utc c w
        (acknowledge_committed-ok revision at x s u) refl refl refl
  restored-foretold (prepares revision turn_id) at old m valid utc seen h =
      let (x, s, c, u, w) = on_current-ok missing (prepare_commit revision turn_id at) old m h in
      let absent : x.prepared ≡ none =
        is_some-false x.prepared
          (not-true (is_some x.prepared) (sym (ap nothing_prepared c) ∙ seen)) in
      touched-foretold old m x s
        (record x { observed = some revision; prepared = some (prepared_of revision turn_id) }) at
        (prepared_session revision turn_id at) valid utc c w
        (prepare_commit-ok revision turn_id at x s absent u) refl refl refl
  restored-foretold (accepts turn_id) at old m valid utc seen h =
      let (x, s, c, u, w) = on_current-ok missing (mark_accepted turn_id at) old m h in
      let (q, e, t, z) = mark_accepted-ok turn_id at x s u in
      touched-foretold old m x s
        (record x { prepared = some (record q { phase = commit_accepted }) }) at
        (accepted_session turn_id at) valid utc c w z refl refl
        (ground (arith, e, t, str_eq_iff q.turn_id turn_id))
  restored-foretold (promotes turn_id) at old m valid utc seen h =
      let (x, s, c, u, w) = on_current-ok missing (promote_prepared turn_id at) old m h in
      let (q, e, z) = promote_prepared-ok turn_id at x s u in
      touched-foretold old m x s
        (record x { committed = some q.revision; observed = none; prepared = none }) at
        (promoted_session at) valid utc c w z refl refl (ground (arith, e))
  restored-foretold (reconciles turn_id true) at old m valid utc seen h =
      let (x, s, c, u, w) = on_current-ok missing (reconcile_prepared turn_id true at) old m h in
      let (q, e, z) = reconcile_prepared-ok turn_id true at x s u in
      touched-foretold old m x s
        (record x { committed = some q.revision; observed = none; prepared = none }) at
        (promoted_session at) valid utc c w z refl refl (ground (arith, e))
  restored-foretold (reconciles turn_id false) at old m valid utc seen h =
      let (x, s, c, u, w) = on_current-ok missing (reconcile_prepared turn_id false at) old m h in
      let (q, e, z) = reconcile_prepared-ok turn_id false at x s u in
      touched-foretold old m x s (record x { observed = some q.revision; prepared = none }) at
        (rejected_session at) valid utc c w z refl refl (ground (arith, e))
  restored-foretold (starts session) at old m valid utc seen h = ground arith
  restored-foretold (restores id) at old m valid utc seen h = ground arith
  restored-foretold (changes_settings change) at old m valid utc seen h = ground arith
  restored-foretold (replaces_native change settings) at old m valid utc seen h = ground arith

  foretold-written :
      (change : Change) (identity : Identity) (expected : Option Mapping) (at : Time) (s : Store)
      (key j : Str) (old new : Mapping)
      → conversation_key p n identity ≡ some key
      → lookup key s.files ≡ some (some old)
      → at.utc ≡ true
      → foreseen change old ≡ true
      → Updates p n
          (settings_of change)
          (native_of change)
          identity
          expected
          at
          (apply_change change at)
          s
          j
          new
      → (j ≡ key) × (new ≡ foretold change at old)
  unfolding valid_mapping_of
  foretold-written change identity expected at s key j old new k l utc seen
        (kj, before, (lj, v), u) =
      let same_key : j ≡ key = ground (arith, k, kj) in
      let same : before ≡ old = ground (arith, l, lj, same_key) in
      let valid =
        (and-true (valid_mapping p n before) (eq_identity before.identity identity) v).0 in
      let (m, c, checked, e) =
        (update_mapping-Passed (settings_of change) (native_of change) expected at
          (apply_change change at) before new u).0 in
      (
        same_key,
        e
            ∙ restored-foretold change at before m valid utc (ap (foreseen change) same ∙ seen) c
            ∙ ap (foretold change at) same,
      )

  -- What an outcome says of the file: it has the mapping that was foretold, no file has changed, or the
  -- file has the mapping foretold or the one before.
  abbrev pub Outcome : Str → Mapping → Mapping → Store → Commit × Store → Type 0
  Outcome key old target s r =
      ((r.0.outcome ≡ applied) × (lookup key r.1.files ≡ some (some target)))
      ⊎ (((r.0.outcome ≡ not_applied) × (r.1.files ≡ s.files))
          ⊎ ((r.0.outcome ≡ uncertain)
              × ((lookup key r.1.files ≡ some (some old))
                  ⊎ (lookup key r.1.files ≡ some (some target)))))

  Outcome-Written :
      (o : CommitOutcome) (key : Str) (old target : Mapping) (s : Store) (r : Commit × Store)
      → r.0.outcome ≡ o
      → lookup key s.files ≡ some (some old)
      → Written key target s r
      → Outcome key old target s r
  Outcome-Written applied key old target s r o l (files, found, same) = inl (o, found o)
  Outcome-Written not_applied key old target s r o l (files, found, same) = inr (inl (o, same o))
  Outcome-Written uncertain key old target s r o l (files, found, same) = inr (
      inr (
        o,
        elim files [
          | inl kept ↦ inl (ap (lookup key) kept ∙ l)
          | inr inserted ↦
              inr (ap (lookup key) inserted ∙ lookup-inserted key (some target) s.files)
        ],
      ))

  -- What the broker foretells of an update is what the store writes: of an observation, an
  -- acknowledgement, a preparation where nothing is prepared, an acceptance, a promotion and a
  -- reconciliation of the current session, at a time in UTC, on the mapping that the identity's file
  -- has. Either the store says that it applied the update, and the file has the foretold mapping; or it
  -- says that it did not, and no file has changed; or it is uncertain, and the file has one of the two.
  pub store_writes_foretold :
      (io : Io) (identity : Identity) (expected : Option Mapping) (change : Change) (at : Time)
      (s : Store) (key : Str) (old : Mapping)
      → conversation_key p n identity ≡ some key
      → lookup key s.files ≡ some (some old)
      → at.utc ≡ true
      → foreseen change old ≡ true
      → Outcome key old (foretold change at old) s (update p n io identity expected change at s)
  store_writes_foretold io identity expected change at s key old k l utc seen =
      elim (update_call-Wrote p n io identity expected change at s) [
        | inl (same, o) ↦ inr (inl (o, same))
        | inr (j, new, u, valid, written) ↦
            let (same_key, e) =
              foretold-written change identity expected at s key j old new k l utc seen u in
            let r = update p n io identity expected change at s in
            Outcome-Written r.0.outcome key old (foretold change at old) s r refl l
              (subst (λ m. Written key m s r) e (subst (λ i. Written i new s r) same_key written))
      ]
