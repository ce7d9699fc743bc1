-- ===== src/State/Valid/Unique.antt =====
-- internal/agent/state/model.go: a valid mapping has each conversation, and each native session, once.
use agent_whiteboard.Base.{
  true, List, [], ◌∷◌, Str, map, ◌≡◌, arith, Distinct, Unseen, Unseen-tail, contains-Unseen,
}
use agent_whiteboard.Agent.{Platform}
use agent_whiteboard.Config.Origin.{Network}
use agent_whiteboard.State.{Session, Mapping, sessions}
use agent_whiteboard.State.Valid.{valid_sessions, valid_mapping}

abbrev pub natives : List Session → List Str
natives = map (λ s. s.native_session)

abbrev pub ids : List Session → List Str
ids = map (λ s. s.conversation_id)

module _ (p : Platform) (n : Network) where
  -- Neither seen before nor twice among themselves.
  abbrev Unique : List Str → List Str → List Session → Type 0
  Unique seen_ids seen_native ss =
      Unseen seen_ids (ids ss)
      × Unseen seen_native (natives ss)
      × Distinct (ids ss)
      × Distinct (natives ss)

  valid_sessions-Unique :
      (provider : Str) (seen_ids seen_native : List Str) (ss : List Session)
      → valid_sessions p n provider seen_ids seen_native ss ≡ true
      → Unique seen_ids seen_native ss
  unfolding valid_sessions
  valid_sessions-Unique provider seen_ids seen_native [] h = (tt, tt, tt, tt)
  valid_sessions-Unique provider seen_ids seen_native (s ∷ ss) h =
      let (ui, un, di, dn) =
        valid_sessions-Unique provider (s.conversation_id ∷ seen_ids)
          (s.native_session ∷ seen_native) ss (ground (arith, h)) in
      (
        (ground (arith, h), Unseen-tail s.conversation_id seen_ids (ids ss) ui),
        (ground (arith, h), Unseen-tail s.native_session seen_native (natives ss) un),
        (contains-Unseen s.conversation_id seen_ids (ids ss) ui, di),
        (contains-Unseen s.native_session seen_native (natives ss) un, dn),
      )

  pub valid_mapping-Distinct :
      (m : Mapping)
      → valid_mapping p n m ≡ true
      → Distinct (ids (sessions m)) × Distinct (natives (sessions m))
  unfolding valid_mapping
  valid_mapping-Distinct m h =
      let (ui, un, di, dn) =
        valid_sessions-Unique m.identity.provider [] [] (sessions m) (ground (arith, h)) in
      (di, dn)
