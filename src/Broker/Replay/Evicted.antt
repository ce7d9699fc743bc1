-- ===== src/Broker/Replay/Evicted.antt =====
-- What holds of a replay log between two calls, and that the eviction of an entry keeps it.
use agent_whiteboard.Base.{
  ◌≤◌, ◌<◌, ◌≡◌, refl, subst, false, List, [], ◌∷◌, ◌++◌, Option, none, some, Str, str_eq,
  str_eq_symm, str_eq_iff, length, length-append, is_some, map, map-append, append_assoc, ◌==◌,
  push_back, lookup, lookup-insert, lookup-delete, if◌then◌else◌, Bool-cases, inl, inr, sum_of,
  contains, contains-append, Distinct, Distinct-middle, arith,
}
use agent_whiteboard.Broker.Replay.{
  max_replay_events, Entry, EvictedEntry, ReplayLog, new_log, event_ids, forget_oldest,
  evicted_record, evict_entry,
}

abbrev pub evicted_ids : List EvictedEntry → List Str
evicted_ids = map λ r. r.event_id

-- The record of an identifier in the list that gives the order of eviction.
unfoldable pub find_record : Str → List EvictedEntry → Option EvictedEntry
find_record id [] = none
find_record id (r ∷ rs) = if str_eq r.event_id id then some r else find_record id rs

find_record_absent :
    (id : Str) (rs : List EvictedEntry)
    → contains id (evicted_ids rs) ≡ false
    → find_record id rs ≡ none
unfolding find_record
find_record_absent id [] h = refl
find_record_absent id (r ∷ rs) h =
    ground (arith, str_eq_symm r.event_id id, find_record_absent id rs)

pub find_record_present :
    (id : Str) (rs : List EvictedEntry) → is_some (find_record id rs) ≡ contains id (evicted_ids rs)
unfolding find_record
find_record_present id [] = refl
find_record_present id (r ∷ rs) =
    ground (arith, str_eq_symm r.event_id id, find_record_present id rs)

find_record-push_back :
    (id : Str) (rs : List EvictedEntry) (r : EvictedEntry)
    → contains r.event_id (evicted_ids rs) ≡ false
    → find_record id (push_back rs r) ≡ (if str_eq r.event_id id then some r else find_record id rs)
unfolding find_record
find_record-push_back id [] r h = refl
find_record-push_back id (x ∷ rs) r h = ground (
  arith,
  str_eq_symm r.event_id x.event_id,
  str_eq_iff r.event_id id,
  str_eq_iff x.event_id id,
  str_eq_iff x.event_id r.event_id,
  find_record-push_back id rs r,
)

-- What the record of evicted entries keeps, before the next one is evicted.
record Kept (evicted : List (Str × EvictedEntry)) (order : List EvictedEntry) (ids : List Str)
    : Type 0 where
  room : length order < max_replay_events
  pub agree : (id : Str) → lookup id evicted ≡ find_record id order
  pub distinct : Distinct (evicted_ids order ++ ids)

forget_oldest-Kept :
    (evicted : List (Str × EvictedEntry)) (order : List EvictedEntry) (ids : List Str)
    → length order ≤ max_replay_events
    → ((id : Str) → lookup id evicted ≡ find_record id order)
    → Distinct (evicted_ids order ++ ids)
    → Kept (forget_oldest evicted order).0 (forget_oldest evicted order).1 ids
unfolding forget_oldest find_record
forget_oldest-Kept evicted [] ids b a d = record { room = omega arith; agree = a; distinct = d }
forget_oldest-Kept evicted (r ∷ rs) ids b a d =
    elim (Bool-cases (length (r ∷ rs) == max_replay_events)) [
      | inl full ↦ rw full (record {
        room = ground arith;
        agree = λ id. ground (
          arith,
          a id,
          lookup-delete r.event_id id evicted,
          str_eq_iff r.event_id id,
          find_record_absent r.event_id rs,
          contains-append r.event_id (evicted_ids rs) ids,
          d.0,
        );
        distinct = d.1;
      })
      | inr some_room ↦ rw some_room (record { room = ground arith; agree = a; distinct = d })
    ]

shift-Distinct :
    (order : List EvictedEntry) (r : EvictedEntry) (ids : List Str)
    → Distinct (evicted_ids order ++ r.event_id ∷ ids)
    → Distinct (evicted_ids (push_back order r) ++ ids)
shift-Distinct order r ids d = rw (map-append, append_assoc) d

module _ {P : Type 0} where
  -- The map and the list of evicted entries hold the same records, at most 2048, the count of bytes
  -- is exact, and no identifier stands twice in the log.
  pub record Inv (log : ReplayLog P) : Type 0 where
    pub counted : log.total ≡ sum_of (λ e. e.encoded_bytes) log.entries
    pub order_bound : length log.evicted_order ≤ max_replay_events
    pub agree : (id : Str) → lookup id log.evicted ≡ find_record id log.evicted_order
    pub distinct : Distinct (evicted_ids log.evicted_order ++ event_ids log.entries)

  pub new-Inv : Inv (new_log {P = P})
  unfolding lookup find_record
  new-Inv = record { counted = refl; order_bound = omega arith; agree = λ id. refl; distinct = tt }

  pub evict_entry-Inv :
      (e : Entry P) (es : List (Entry P)) (log : ReplayLog P)
      → log.entries ≡ e ∷ es
      → Inv log
      → Inv (evict_entry e es log)
  unfolding evict_entry
  evict_entry-Inv e es log h v =
      let old =
        subst (λ xs. Distinct (evicted_ids log.evicted_order ++ event_ids xs)) h v.distinct in
      let total =
        subst (λ xs. log.total ≡ sum_of (λ (x : Entry P). x.encoded_bytes) xs) h v.counted in
      let k =
        forget_oldest-Kept log.evicted log.evicted_order (e.event.event_id ∷ event_ids es)
          v.order_bound v.agree old in
      let order = (forget_oldest log.evicted log.evicted_order).1 in
      let fresh = Distinct-middle (evicted_ids order) (event_ids es) e.event.event_id k.distinct in
      record {
        counted = omega (arith, total);
        order_bound = omega (arith, k.room, length-append order (evicted_record e ∷ []));
        agree = λ id. ground (
          arith,
          k.agree id,
          lookup-insert e.event.event_id id (evicted_record e)
              (forget_oldest log.evicted log.evicted_order).0,
          find_record-push_back id order (evicted_record e) fresh,
        );
        distinct = shift-Distinct order (evicted_record e) (event_ids es) k.distinct;
      }
