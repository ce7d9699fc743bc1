-- ===== src/Broker/Replay/Invariant.antt =====
-- Every append keeps what holds of a replay log, and ends within its limits.
use agent_whiteboard.Base.{
  ℕ, suc, zero, ◌<◌, ◌≡◌, refl, sym, ◌∙◌, ap, subst, Bool, true, false, List, [], ◌∷◌, ◌++◌, Str,
  str_eq, str_eq_symm, length, length-append, is_some, any, map-append, append_assoc, Bool-cases,
  List-cases, inl, inr, sum_of, sum_of-append, contains, contains-append, Distinct-push_back, arith,
}
use agent_whiteboard.Broker.Replay.{
  Entry, ReplayLog, ok, event_ids, contains_event_id, evict_entry, evict_oldest, over_limit, trim,
  with_entry, append_prepared,
}
use agent_whiteboard.Broker.Replay.Evicted.{evicted_ids, find_record_present, Inv, evict_entry-Inv}

module _ {P : Type 0} where
  -- `evict_oldest` and a round of `trim`, once it is known which way they go.
  pub evict_oldest-empty : (log : ReplayLog P) → log.entries ≡ [] → evict_oldest log ≡ log
  unfolding evict_oldest
  evict_oldest-empty log h =
      ap (λ (xs : List (Entry P)). elim xs [ [] ↦ log | e ∷ es ↦ evict_entry e es log ]) h

  pub evict_oldest-cons :
      (log : ReplayLog P) (e : Entry P) (es : List (Entry P))
      → log.entries ≡ e ∷ es
      → evict_oldest log ≡ evict_entry e es log
  unfolding evict_oldest
  evict_oldest-cons log e es h =
      ap (λ (xs : List (Entry P)). elim xs [ [] ↦ log | x ∷ xs ↦ evict_entry x xs log ]) h

  pub trim-round :
      (fuel : ℕ) (log : ReplayLog P) (b : Bool)
      → over_limit log ≡ b
      → trim (suc fuel) log ≡ elim b [ true ↦ trim fuel (evict_oldest log) | false ↦ log ]
  unfolding trim
  trim-round fuel log b h =
      ap (λ (b : Bool). elim b [ true ↦ trim fuel (evict_oldest log) | false ↦ log ]) h

  pub evict_oldest-Inv : (log : ReplayLog P) → Inv log → Inv (evict_oldest log)
  evict_oldest-Inv log v = elim (List-cases log.entries) [
    | inl h ↦ subst Inv (sym (evict_oldest-empty log h)) v
    | inr (e, es, h) ↦ subst Inv (sym (evict_oldest-cons log e es h)) (evict_entry-Inv e es log h v)
  ]

  pub trim-Inv : (fuel : ℕ) (log : ReplayLog P) → Inv log → Inv (trim fuel log)
  unfolding trim
  trim-Inv zero log v = v
  trim-Inv (suc fuel) log v = elim (Bool-cases (over_limit log)) [
    | inl h ↦
        subst Inv (sym (trim-round fuel log true h))
          (trim-Inv fuel (evict_oldest log) (evict_oldest-Inv log v))
    | inr h ↦ subst Inv (sym (trim-round fuel log false h)) v
  ]

  -- A round of the loop shortens a log over its limit, since an empty one holds no bytes.
  evict_oldest_shortens :
      (log : ReplayLog P)
      → Inv log
      → over_limit log ≡ true
      → suc (length (evict_oldest log).entries) ≡ length log.entries
  unfolding over_limit evict_entry
  evict_oldest_shortens log v h = elim (List-cases log.entries) [
    | inl e ↦
        ground (arith, e, h, v.counted, ap length e, ap (sum_of λ (x : Entry P). x.encoded_bytes) e)
    | inr (x, xs, e) ↦ rw (evict_oldest-cons log x xs e, e) refl
  ]

  trim_fits :
      (fuel : ℕ) (log : ReplayLog P)
      → Inv log
      → length log.entries < fuel
      → over_limit (trim fuel log) ≡ false
  trim_fits zero log v h = ground (arith, h)
  trim_fits (suc fuel) log v h = elim (Bool-cases (over_limit log)) [
    | inl o ↦
        ap over_limit (trim-round fuel log true o)
        ∙ trim_fits fuel (evict_oldest log) (evict_oldest-Inv log v)
            (omega (arith, h, evict_oldest_shortens log v o))
    | inr o ↦ ap over_limit (trim-round fuel log false o) ∙ o
  ]

  any_event_id :
      (id : Str) (es : List (Entry P))
      → any (λ (e : Entry P). str_eq e.event.event_id id) es ≡ contains id (event_ids es)
  any_event_id id [] = refl
  any_event_id id (e ∷ es) = ground (arith, str_eq_symm e.event.event_id id, any_event_id id es)

  new_id_unseen :
      (e : Entry P) (log : ReplayLog P)
      → Inv log
      → contains_event_id e.event.event_id log ≡ false
      → contains e.event.event_id (evicted_ids log.evicted_order ++ event_ids log.entries) ≡ false
  unfolding contains_event_id
  new_id_unseen e log v h = ground (
    arith,
    any_event_id e.event.event_id log.entries,
    contains-append e.event.event_id (evicted_ids log.evicted_order) (event_ids log.entries),
    ap is_some (v.agree e.event.event_id),
    find_record_present e.event.event_id log.evicted_order,
  )

  pub with_entry-Inv :
      (e : Entry P) (log : ReplayLog P)
      → Inv log
      → contains_event_id e.event.event_id log ≡ false
      → Inv (with_entry e log)
  unfolding contains_event_id
  with_entry-Inv e log v h = record {
    counted =
        omega
          (arith, v.counted, sum_of-append (λ (x : Entry P). x.encoded_bytes) log.entries (e ∷ []));
    order_bound = v.order_bound;
    agree = v.agree;
    distinct =
        rw (map-append, ← append_assoc)
          (Distinct-push_back (evicted_ids log.evicted_order ++ event_ids log.entries)
            e.event.event_id (new_id_unseen e log v h) v.distinct);
  }

  -- An entry that is admitted keeps the invariant, and the log within its limits.
  pub append_prepared-Inv :
      (e : Entry P) (log log' : ReplayLog P)
      → Inv log
      → append_prepared e log ≡ ok log'
      → Inv log' × (over_limit log' ≡ false)
  unfolding append_prepared
  append_prepared-Inv e log log' v h =
      let w = with_entry-Inv e log v (ground arith) in
      let fuel = suc (suc (length log.entries)) in
      subst (λ l. Inv l × (over_limit l ≡ false)) {x = trim fuel (with_entry e log)} (ground arith)
        (
          trim-Inv fuel (with_entry e log) w,
          trim_fits fuel (with_entry e log) w (omega (arith, length-append log.entries (e ∷ []))),
        )
