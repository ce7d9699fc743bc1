-- ===== src/Broker/Replay/Visibility.antt =====
-- What a client learns of a log: the events that are visible to it, and nothing of the others.
use agent_whiteboard.Base.{
  ◌≡◌, refl, sym, ◌∙◌, ap, true, false, List, [], ◌∷◌, ◌++◌, Option, none, some, Str, str_eq_symm,
  str_eq_iff, str_eq_refl, contains, contains-append, Distinct, Distinct-append_right, is_some,
  keep, map, lookup, if◌then◌else◌, arith, Bool-cases, inl, inr,
}
use agent_whiteboard.Common.Id.{valid_id, valid_id_nonempty}
use agent_whiteboard.Broker.Replay.{
  Event, Entry, EvictedEntry, ReplayLog, Result, ok, err, cursor_missing, cursor_evicted, visible,
  sees, event_ids, events_for, evicted_cursor, after_cursor, from_cursor, replay,
}
use agent_whiteboard.Broker.Replay.Evicted.{Inv, evicted_ids, find_record_present}

-- An evicted entry, if the client was to see it.
abbrev pub seen_record : Str → Option EvictedEntry → Option EvictedEntry
seen_record client none = none
seen_record client (some r) = if visible client r.target r.excluded then some r else none

-- An identifier of the log is not among those of the evicted entries.
live_not_evicted :
    (id : Str) (xs ys : List Str)
    → Distinct (xs ++ ys)
    → contains id ys ≡ true
    → contains id xs ≡ false
live_not_evicted id [] ys d h = refl
live_not_evicted id (x ∷ xs) ys d h =
    ground (arith, str_eq_iff id x, contains-append x xs ys, live_not_evicted id xs ys d.1 h)

module _ {P : Type 0} where
  -- What `replay` answers from the part of the log that a client may see.
  abbrev view : Str → List (Entry P) → Option EvictedEntry → Result (List (Event P))
  view cursor es r = elim (after_cursor cursor es) [
    | none ↦ if is_some r then err cursor_evicted else err cursor_missing
    | some (e, rest) ↦ ok (map (λ (x : Entry P). x.event) rest)
  ]

  absent_keep :
      (client id : Str) (es : List (Entry P))
      → contains id (event_ids es) ≡ false
      → after_cursor id (keep (sees client) es) ≡ none
  unfolding after_cursor
  absent_keep client id [] h = refl
  absent_keep client id (e ∷ es) h =
      ground (arith, str_eq_symm e.event.event_id id, absent_keep client id es)

  -- Looking up the cursor among the visible entries only.
  after_cursor-keep :
      (client id : Str) (es : List (Entry P))
      → Distinct (event_ids es)
      → after_cursor id (keep (sees client) es) ≡ elim (after_cursor id es) [
        | none ↦ none
        | some (e, rest) ↦ if sees client e then some (e, keep (sees client) rest) else none
      ]
  unfolding after_cursor
  after_cursor-keep client id [] d = refl
  after_cursor-keep client id (e ∷ es) d = ground (
    arith,
    str_eq_iff e.event.event_id id,
    absent_keep client e.event.event_id es d.0,
    after_cursor-keep client id es d.1,
  )

  after_cursor-contains :
      (id : Str) (es : List (Entry P)) → is_some (after_cursor id es) ≡ contains id (event_ids es)
  unfolding after_cursor
  after_cursor-contains id [] = refl
  after_cursor-contains id (e ∷ es) =
      ground (arith, str_eq_symm e.event.event_id id, after_cursor-contains id es)

  from_cursor-view :
      (client cursor : Str) (log : ReplayLog P)
      → Inv log
      → from_cursor client cursor log
        ≡ view cursor
            (keep (sees client) log.entries)
            (seen_record client (lookup cursor log.evicted))
  unfolding from_cursor evicted_cursor
  from_cursor-view client cursor log v =
      let ids =
        live_not_evicted cursor (evicted_ids log.evicted_order) (event_ids log.entries)
          v.distinct in
      ground (
        arith,
        ids,
        after_cursor-contains cursor log.entries,
        find_record_present cursor log.evicted_order,
        v.agree cursor,
        after_cursor-keep client cursor log.entries (
            Distinct-append_right (evicted_ids log.evicted_order) (event_ids log.entries)
              v.distinct),
      )

  -- Two logs that agree on the entries visible to a client answer it alike, whatever the cursor: an
  -- entry it may not see cannot be told from one that never was.
  pub replay_hides :
      (client cursor : Str) (log log' : ReplayLog P)
      → Inv log
      → Inv log'
      → keep (sees client) log.entries ≡ keep (sees client) log'.entries
      → seen_record client (lookup cursor log.evicted)
        ≡ seen_record client (lookup cursor log'.evicted)
      → replay client cursor log ≡ replay client cursor log'
  unfolding replay
  replay_hides client cursor log log' v v' he hr = ground (
    arith,
    he,
    ap (map (λ (x : Entry P). x.event)) he,
    from_cursor-view client cursor log v
        ∙ ap (λ es. view cursor es (seen_record client (lookup cursor log.evicted))) he
        ∙ ap (view cursor (keep (sees client) log'.entries)) hr
        ∙ sym (from_cursor-view client cursor log' v'),
  )

  -- Where the cursor of an event stands, and that the events after it are those to send.
  abbrev Resumes : Str → Str → List (Event P) → List (Entry P) → Type 0
  Resumes client id ys es =
      (x : Entry P) × (rest : List (Entry P)) × (after_cursor id es ≡ some (x, rest))
      × (sees client x ≡ true)
      × (events_for client rest ≡ ys)

  Resumes-later :
      (client id : Str) (ys : List (Event P)) (a : Entry P) (es : List (Entry P))
      → contains a.event.event_id (event_ids es) ≡ false
      → Resumes client id ys es
      → Resumes client id ys (a ∷ es)
  unfolding after_cursor
  Resumes-later client id ys a es h (x, rest, found, seen, sent) = (
    x,
    rest,
    ground (arith, found, h, after_cursor-contains id es, str_eq_iff a.event.event_id id),
    seen,
    sent,
  )

  resume_seen :
      (client : Str) (e : Event P) (xs ys : List (Event P)) (a : Entry P) (es : List (Entry P))
      → contains a.event.event_id (event_ids es) ≡ false
      → sees client a ≡ true
      → ((zs : List (Event P))
          → events_for client es ≡ zs ++ e ∷ ys
          → Resumes client e.event_id ys es)
      → a.event ∷ events_for client es ≡ xs ++ e ∷ ys
      → Resumes client e.event_id ys (a ∷ es)
  unfolding after_cursor
  resume_seen client e [] ys a es new s later h =
      (a, es, ground (arith, h, str_eq_refl e.event_id), s, cc)
  resume_seen client e (x ∷ xs) ys a es new s later h =
      Resumes-later client e.event_id ys a es new (later xs cc)

  resume_entries :
      (client : Str) (e : Event P) (xs ys : List (Event P)) (es : List (Entry P))
      → Distinct (event_ids es)
      → events_for client es ≡ xs ++ e ∷ ys
      → Resumes client e.event_id ys es
  resume_entries client e [] ys [] d h = cc
  resume_entries client e (x ∷ xs) ys [] d h = cc
  resume_entries client e xs ys (a ∷ es) d h = elim (Bool-cases (sees client a)) [
    | inl s ↦
        resume_seen client e xs ys a es d.0 s (λ zs. resume_entries client e zs ys es d.1)
          (ground (arith, s, h))
    | inr s ↦
        Resumes-later client e.event_id ys a es d.0
          (resume_entries client e xs ys es d.1 (ground (arith, s, h)))
  ]

  replay_all :
      (client : Str) (log : ReplayLog P) (es : List (Event P))
      → replay client [] log ≡ ok es
      → (valid_id client ≡ true) × (events_for client log.entries ≡ es)
  unfolding replay
  replay_all client log es h = elim (Bool-cases (valid_id client)) [
    | inl c ↦ (c, ground (arith, c, h))
    | inr c ↦ ground (arith, c, h)
  ]

  -- Of the events that a client is sent when it has no cursor, those after any one of them are what
  -- it is sent when that event, whose identifier is valid, is its cursor.
  pub replay_resumes :
      (client : Str) (e : Event P) (xs ys : List (Event P)) (log : ReplayLog P)
      → Inv log
      → valid_id e.event_id ≡ true
      → replay client [] log ≡ ok (xs ++ e ∷ ys)
      → replay client e.event_id log ≡ ok ys
  unfolding replay from_cursor
  replay_resumes client e xs ys log v valid h =
      let (c, sent) = replay_all client log (xs ++ e ∷ ys) h in
      let (x, rest, found, seen, after) =
        resume_entries client e xs ys log.entries
          (Distinct-append_right (evicted_ids log.evicted_order) (event_ids log.entries) v.distinct)
          sent in
      ground (arith, c, valid, valid_id_nonempty e.event_id valid, found, seen, after)
