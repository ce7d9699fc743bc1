-- ===== src/Broker/Replay.antt =====
-- internal/agent/broker/replay.go: the bounded log of the events of a conversation, from which a
-- browser catches up after a cursor. An event is its identifier and an abstract payload; `wire_length`
-- stands for `protocol.EncodeEvent` and gives the length of the encoding, or none for its error.
-- A prepared entry is appended to the log that prepared it, so the pointer comparison is left out,
-- and so are nil receivers. Copies of events are the events themselves.
pub mod Evicted
pub mod Eviction
pub mod History
pub mod Invariant
pub mod Visibility
use agent_whiteboard.Base.{
  ℕ, suc, zero, ◌+◌, ◌-◌, Bool, true, false, not, ◌&&◌, ◌||◌, List, [], ◌∷◌, ◌++◌, Option, none,
  some, Str, str_eq, length, is_empty, is_some, any, keep, map, ltb, ◌==◌, push_back, lookup,
  insert, delete, if◌then◌else◌,
}
use agent_whiteboard.Common.Id.{valid_id}

abbrev pub max_replay_events : ℕ
max_replay_events = 2048

abbrev pub max_replay_bytes : ℕ
max_replay_bytes = 8388608

pub record Event (P : Type 0) : Type 0 where
  pub event_id : Str
  pub payload : P

-- `target` is empty for an event of all clients, `excluded` for an event hidden from none.
pub record Entry (P : Type 0) : Type 0 where
  pub event : Event P
  pub target : Str
  pub excluded : Str
  pub encoded_bytes : ℕ

pub record EvictedEntry : Type 0 where
  pub event_id : Str
  pub target : Str
  pub excluded : Str

pub record ReplayLog (P : Type 0) : Type 0 where
  pub entries : List (Entry P)
  pub total : ℕ
  pub evicted : List (Str × EvictedEntry)
  pub evicted_order : List EvictedEntry

pub data ReplayError : Type 0 where
  invalid_excluded invalid_target invalid_event invalid_prepared duplicate_event : ReplayError
  invalid_client cursor_missing cursor_evicted : ReplayError

pub data Result {ℓ} (A : Type ℓ) : Type ℓ where
  ok : A → Result A
  err : ReplayError → Result A

-- `replayVisible`.
unfoldable pub visible : Str → Str → Str → Bool
visible client target excluded =
    (is_empty target || str_eq target client) && not (str_eq excluded client)

-- What of the evicted entries stays known: the latest 2048 of them.
unfoldable pub forget_oldest :
    List (Str × EvictedEntry) → List EvictedEntry → List (Str × EvictedEntry) × List EvictedEntry
forget_oldest evicted [] = (evicted, [])
forget_oldest evicted (r ∷ rs) =
    if length (r ∷ rs) == max_replay_events
    then (delete r.event_id evicted, rs)
    else (evicted, r ∷ rs)

module _ {P : Type 0} where
  abbrev pub new_log : ReplayLog P
  new_log = record { entries = []; total = 0; evicted = []; evicted_order = [] }

  abbrev pub event_ids : List (Entry P) → List Str
  event_ids = map λ e. e.event.event_id

  unfoldable pub contains_event_id : Str → ReplayLog P → Bool
  contains_event_id id log =
      any (λ (e : Entry P). str_eq e.event.event_id id) log.entries
      || is_some (lookup id log.evicted)

  abbrev pub evicted_record : Entry P → EvictedEntry
  evicted_record e = record {
    event_id = e.event.event_id;
    target = e.target;
    excluded = e.excluded;
  }

  unfoldable pub evict_entry : Entry P → List (Entry P) → ReplayLog P → ReplayLog P
  unfolding forget_oldest
  evict_entry oldest rest log =
      let (evicted, order) = forget_oldest log.evicted log.evicted_order in
      record {
        entries = rest;
        total = log.total - oldest.encoded_bytes;
        evicted = insert oldest.event.event_id (evicted_record oldest) evicted;
        evicted_order = push_back order (evicted_record oldest);
      }

  -- `evictOldest`.
  unfoldable pub evict_oldest : ReplayLog P → ReplayLog P
  unfolding evict_entry
  evict_oldest log = elim log.entries [ [] ↦ log | e ∷ es ↦ evict_entry e es log ]

  unfoldable pub over_limit : ReplayLog P → Bool
  over_limit log = ltb max_replay_events (length log.entries) || ltb max_replay_bytes log.total

  -- The loop of `appendPrepared`, one round of fuel for each entry and one to find it empty.
  unfoldable pub trim : ℕ → ReplayLog P → ReplayLog P
  trim zero log = log
  trim (suc fuel) log = elim (over_limit log) [ true ↦ trim fuel (evict_oldest log) | false ↦ log ]

  abbrev pub with_entry : Entry P → ReplayLog P → ReplayLog P
  with_entry e log = record log {
    entries = push_back log.entries e;
    total = log.total + e.encoded_bytes;
  }

  -- `appendPrepared`.
  unfoldable pub append_prepared : Entry P → ReplayLog P → Result (ReplayLog P)
  unfolding trim
  append_prepared e log =
      if e.encoded_bytes == 0
      then err invalid_prepared
      else if contains_event_id e.event.event_id log
      then err duplicate_event
      else ok (trim (suc (suc (length log.entries))) (with_entry e log))

  module _ (wire_length : Event P → Option ℕ) where
    -- `prepareAppend`.
    unfoldable pub prepare_append : Event P → Str → ReplayLog P → Result (Entry P)
    prepare_append event target log =
        if not (is_empty target) && not (valid_id target)
        then err invalid_target
        else elim (wire_length event) [
          | none ↦ err invalid_event
          | some n ↦
              if contains_event_id event.event_id log
              then err duplicate_event
              else ok (record { event = event; target = target; excluded = []; encoded_bytes = n })
        ]

    -- `append`: `Append` has no target and `AppendForClient` the client.
    unfoldable pub append : Event P → Str → ReplayLog P → Result (ReplayLog P)
    unfolding prepare_append
    append event target log = elim (prepare_append event target log) [
      | err e ↦ err e
      | ok entry ↦ append_prepared entry log
    ]

    -- `AppendExceptClient`.
    unfoldable pub append_except : Str → Event P → ReplayLog P → Result (ReplayLog P)
    unfolding prepare_append
    append_except client event log =
        if not (valid_id client) then err invalid_excluded else elim (prepare_append event [] log) [
          | err e ↦ err e
          | ok entry ↦ append_prepared (record entry { excluded = client }) log
        ]

  -- The first entry with the identifier, and those after it.
  unfoldable pub after_cursor : Str → List (Entry P) → Option (Entry P × List (Entry P))
  after_cursor id [] = none
  after_cursor id (e ∷ es) = if str_eq e.event.event_id id then some (e, es) else after_cursor id es

  abbrev pub sees : Str → Entry P → Bool
  sees client e = visible client e.target e.excluded

  abbrev pub events_for : Str → List (Entry P) → List (Event P)
  events_for client es = map (λ (e : Entry P). e.event) (keep (sees client) es)

  unfoldable pub evicted_cursor : Str → Option EvictedEntry → Result (List (Event P))
  evicted_cursor client none = err cursor_missing
  evicted_cursor client (some r) =
      if visible client r.target r.excluded then err cursor_evicted else err cursor_missing

  unfoldable pub from_cursor : Str → Str → ReplayLog P → Result (List (Event P))
  unfolding evicted_cursor
  from_cursor client cursor log = elim (after_cursor cursor log.entries) [
    | none ↦ evicted_cursor client (lookup cursor log.evicted)
    | some (e, rest) ↦ if sees client e then ok (events_for client rest) else err cursor_missing
  ]

  -- `Replay`.
  unfoldable pub replay : Str → Str → ReplayLog P → Result (List (Event P))
  unfolding from_cursor
  replay client cursor log =
      if not (valid_id client)
      then err invalid_client
      else if is_empty cursor
      then ok (events_for client log.entries)
      else if not (valid_id cursor)
      then err cursor_missing
      else from_cursor client cursor log
