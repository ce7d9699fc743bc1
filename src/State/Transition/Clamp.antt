-- ===== src/State/Transition/Clamp.antt =====
-- internal/agent/state/store.go: what clampSessionTimes leaves as it is.
use agent_whiteboard.Base.{
  List, [], ◌∷◌, some, Str, lookup, map, All, ◌≡◌, refl, ◌∙◌, ap, arith, Distinct,
}
use agent_whiteboard.State.{Time, later_time, Session, Mapping, sessions}
use agent_whiteboard.State.Valid.Unique.{ids}
use agent_whiteboard.State.Transition.{
  SessionSnapshot, snapshot_of, snapshot_sessions, clamp, clamp_to, map_option,
}
use agent_whiteboard.State.Transition.Index.{
  find_session, find_session-own, lookup-indexed, All-map,
}

later_time-same : (t : Time) → later_time t t ≡ t
later_time-same t = ground arith

pub later_time-twice : (t at : Time) → later_time t (later_time t at) ≡ later_time t at
later_time-twice t at = ground arith

clamp-own :
    (snapshots : List (Str × SessionSnapshot)) (s : Session)
    → lookup s.conversation_id snapshots ≡ some (snapshot_of s)
    → clamp snapshots s ≡ s
clamp-own snapshots s h =
    ap (λ o. clamp_to o s) h ∙ ap (λ t. record s { updated_at = t }) (later_time-same s.updated_at)

pub map-clamp :
    (snapshots : List (Str × SessionSnapshot)) (ss : List Session)
    → All (λ s. lookup s.conversation_id snapshots ≡ some (snapshot_of s)) ss
    → map (clamp snapshots) ss ≡ ss
map-clamp snapshots [] h = refl
map-clamp snapshots (s ∷ ss) h =
    let front = clamp-own snapshots s h.0 in let rest = map-clamp snapshots ss h.1 in cc

pub snapshots-own :
    (m : Mapping)
    → Distinct (ids (sessions m))
    → All (λ s. lookup s.conversation_id (snapshot_sessions m) ≡ some (snapshot_of s)) (sessions m)
unfolding snapshot_sessions
snapshots-own m d =
    All-map (λ s. find_session s.conversation_id (sessions m) ≡ some s)
      (λ s. lookup s.conversation_id (snapshot_sessions m) ≡ some (snapshot_of s)) (sessions m)
      (λ s found.
        lookup-indexed snapshot_of s.conversation_id (sessions m) d
        ∙ ap (map_option snapshot_of) found)
      (find_session-own (sessions m) d)
