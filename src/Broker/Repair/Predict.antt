-- ===== src/Broker/Repair/Predict.antt =====
-- internal/agent/broker/state_repair.go: the mapping that the broker foretells of an update of the
-- current session is the one that the store makes.
use agent_whiteboard.Base.{
  true, List, [], ◌∷◌, some, Str, lookup, map, ==_iff, ◌≡◌, sym, ◌∙◌, ap, arith, subst, All,
  if◌then◌else◌,
}
use agent_whiteboard.Agent.{Platform}
use agent_whiteboard.Config.Origin.{Network}
use agent_whiteboard.State.{Time, before, later_time, Session, Mapping, sessions, all_sessions}
use agent_whiteboard.State.Valid.{
  schema_version, valid_mapping, valid_sessions, valid_for_provider, valid_session,
}
use agent_whiteboard.State.Valid.Unique.{valid_mapping-Distinct}
use agent_whiteboard.State.Transition.{
  snapshot_of, snapshot_sessions, clamp, clamp_to, clamp_session_times,
}
use agent_whiteboard.State.Transition.Clamp.{snapshots-own, map-clamp, later_time-twice}
use agent_whiteboard.State.Store.Access.{restored}
use agent_whiteboard.State.Update.{touch, with_current}
use agent_whiteboard.Broker.Repair.{max_time, moved}

-- The two ways to take the later of two times agree on times of one location.
later_time-max_time : (t at : Time) → t.utc ≡ at.utc → later_time t at ≡ max_time t at
later_time-max_time t at h = ground arith

restored-max_time : (t at : Time) → t.utc ≡ at.utc → (if before at t then t else at) ≡ max_time t at
restored-max_time t at h = ground arith

module _ (p : Platform) (n : Network) where
  -- What the proofs use of a valid mapping with a current session.
  abbrev Times : Mapping → Session → Type 0
  Times m x =
      (m.schema_version ≡ schema_version) × (m.updated_at.utc ≡ true) × (x.updated_at.utc ≡ true)

  valid_session-utc : (x : Session) → valid_session p n x ≡ true → x.updated_at.utc ≡ true
  unfolding valid_session
  valid_session-utc x h = ground (arith, h)

  valid_sessions-first :
      (provider : Str) (x : Session) (archives : List Session)
      → valid_sessions p n provider [] [] (x ∷ archives) ≡ true
      → x.updated_at.utc ≡ true
  unfolding valid_sessions valid_for_provider
  valid_sessions-first provider x archives h = valid_session-utc x (ground (arith, h))

  valid_mapping-Times :
      (m : Mapping) (x : Session) → m.current ≡ some x → valid_mapping p n m ≡ true → Times m x
  unfolding valid_mapping
  valid_mapping-Times m x c h =
      let listed : sessions m ≡ x ∷ m.archives = ap (λ o. all_sessions o m.archives) c in
      (
        (==_iff m.schema_version schema_version).0 (ground (arith, h)),
        ground (arith, h),
        valid_sessions-first m.identity.provider x m.archives
            (ap (valid_sessions p n m.identity.provider [] []) (sym listed) ∙ ground (arith, h)),
      )

  -- The sessions of an update that touched the current one, with their times held.
  clamp-touched :
      (old : Mapping) (x y : Session) (at : Time)
      → valid_mapping p n old ≡ true
      → old.current ≡ some x
      → y.conversation_id ≡ x.conversation_id
      → y.updated_at ≡ x.updated_at
      → clamp_session_times (snapshot_sessions old) (with_current old (touch at y))
        ≡ with_current old (touch at y)
  unfolding clamp_session_times
  clamp-touched old x y at valid c id time =
      let own = snapshots-own old (valid_mapping-Distinct p n old valid).0 in
      let listed : sessions old ≡ x ∷ old.archives = ap (λ o. all_sessions o old.archives) c in
      let (first, rest) =
        subst (All (λ s. lookup s.conversation_id (snapshot_sessions old) ≡ some (snapshot_of s)))
          listed own in
      let archives : map (clamp (snapshot_sessions old)) old.archives ≡ old.archives =
        map-clamp (snapshot_sessions old) old.archives rest in
      let found : lookup y.conversation_id (snapshot_sessions old) ≡ some (snapshot_of x) =
        ap (λ i. lookup i (snapshot_sessions old)) id ∙ first in
      let current : clamp (snapshot_sessions old) (touch at y) ≡ touch at y =
        ap (λ o. clamp_to o (touch at y)) found
        ∙ ap (λ t. record y { updated_at = later_time t (later_time y.updated_at at) }) (sym time)
        ∙ ap (λ t. record y { updated_at = t }) (later_time-twice y.updated_at at) in
      ap
        (λ s. record old {
          current = some s;
          archives = map (clamp (snapshot_sessions old)) old.archives;
        })
        current
      ∙ ap (λ a. record old { current = some (touch at y); archives = a }) archives

  -- What the store makes of an update of the current session is what the broker foretells.
  pub restored-moved :
      (old : Mapping) (x y : Session) (at : Time)
      → valid_mapping p n old ≡ true
      → old.current ≡ some x
      → y.conversation_id ≡ x.conversation_id
      → y.updated_at ≡ x.updated_at
      → at.utc ≡ true
      → restored at old
          (clamp_session_times (snapshot_sessions old) (with_current old (touch at y)))
        ≡ moved at y old
  restored-moved old x y at valid c id time utc =
      let (schema, mapping_utc, session_utc) = valid_mapping-Times old x c valid in
      let session : later_time y.updated_at at ≡ max_time y.updated_at at =
        later_time-max_time y.updated_at at
          (ap (λ (t : Time). t.utc) time ∙ session_utc ∙ sym utc) in
      let mapping : (if before at old.updated_at then old.updated_at else at)
          ≡ max_time old.updated_at at =
        restored-max_time old.updated_at at (mapping_utc ∙ sym utc) in
      ap (restored at old) (clamp-touched old x y at valid c id time)
      ∙ ap
          (λ t. record old {
            schema_version = schema_version;
            current = some (record y { updated_at = t });
            updated_at = if before at old.updated_at then old.updated_at else at;
          })
          session
      ∙ ap
          (λ t. record old {
            schema_version = schema_version;
            current = some (record y { updated_at = max_time y.updated_at at });
            updated_at = t;
          })
          mapping
      ∙ ap
          (λ v. record old {
            schema_version = v;
            current = some (record y { updated_at = max_time y.updated_at at });
            updated_at = max_time old.updated_at at;
          })
          (sym schema)
