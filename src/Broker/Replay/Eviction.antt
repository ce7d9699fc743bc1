-- ===== src/Broker/Replay/Eviction.antt =====
-- Which entries the log gives up when one is appended.
use agent_whiteboard.Base.{
  ℕ, suc, zero, ◌≤◌, ◌≡◌, refl, sym, ◌∙◌, ap, subst, true, false, List, [], ◌∷◌, ◌++◌, length,
  append_assoc, push_back, inl, inr, sum_of, Bool-cases, List-cases, arith,
}
use agent_whiteboard.Broker.Replay.{
  max_replay_bytes, Entry, ReplayLog, ok, evict_entry, evict_oldest, over_limit, trim, with_entry,
  append_prepared,
}
use agent_whiteboard.Broker.Replay.Evicted.{Inv}
use agent_whiteboard.Broker.Replay.Invariant.{
  evict_oldest-empty, evict_oldest-cons, trim-round, evict_oldest-Inv, with_entry-Inv,
}

module _ {P : Type 0} where
  -- `Trimmed es log es'` : `es'` is what stays of `es`, the oldest having gone.
  abbrev pub DropsOldest : List (Entry P) → List (Entry P) → Type 0
  DropsOldest es es' = (dropped : List (Entry P)) × (es ≡ dropped ++ es')

  evict_oldest_drops : (log : ReplayLog P) → DropsOldest log.entries (evict_oldest log).entries
  unfolding evict_entry
  evict_oldest_drops log = elim (List-cases log.entries) [
    | inl h ↦ ([], ap (λ (l : ReplayLog P). l.entries) (sym (evict_oldest-empty log h)))
    | inr (e, es, h) ↦
        (e ∷ [], h ∙ ap (λ (l : ReplayLog P). e ∷ l.entries) (sym (evict_oldest-cons log e es h)))
  ]

  trim_drops : (fuel : ℕ) (log : ReplayLog P) → DropsOldest log.entries (trim fuel log).entries
  unfolding trim evict_entry
  trim_drops zero log = ([], refl)
  trim_drops (suc fuel) log = elim (Bool-cases (over_limit log)) [
    | inl o ↦
        let (a, p) = evict_oldest_drops log in
        let (b, q) = trim_drops fuel (evict_oldest log) in
        subst (λ (l : ReplayLog P). DropsOldest log.entries l.entries)
          (sym (trim-round fuel log true o))
          (a ++ b, p ∙ ap (λ es. a ++ es) q ∙ sym (append_assoc a b _))
    | inr o ↦
        subst (λ (l : ReplayLog P). DropsOldest log.entries l.entries)
          (sym (trim-round fuel log false o)) ([], refl)
  ]

  -- An entry within the limit of bytes is within both limits on its own.
  alone_fits :
      (e : Entry P) (log : ReplayLog P)
      → Inv log
      → log.entries ≡ e ∷ []
      → e.encoded_bytes ≤ max_replay_bytes
      → over_limit log ≡ false
  unfolding over_limit
  alone_fits e log v h small =
      ground
        (arith, h, small, v.counted, ap length h, ap (sum_of λ (x : Entry P). x.encoded_bytes) h)

  trim_keeps_newest :
      (fuel : ℕ) (e : Entry P) (xs : List (Entry P)) (log : ReplayLog P)
      → Inv log
      → e.encoded_bytes ≤ max_replay_bytes
      → log.entries ≡ push_back xs e
      → (ys : List (Entry P)) × ((trim fuel log).entries ≡ push_back ys e)
  unfolding trim evict_entry
  trim_keeps_newest zero e xs log v small h = (xs, h)
  trim_keeps_newest (suc fuel) e [] log v small h = (
    [],
    ap (λ (l : ReplayLog P). l.entries) (trim-round fuel log false (alone_fits e log v h small))
        ∙ h,
  )
  trim_keeps_newest (suc fuel) e (x ∷ xs) log v small h = elim (Bool-cases (over_limit log)) [
    | inl o ↦
        subst (λ (l : ReplayLog P). (ys : List (Entry P)) × (l.entries ≡ push_back ys e))
          (sym (trim-round fuel log true o))
          (trim_keeps_newest fuel e xs (evict_oldest log) (evict_oldest-Inv log v) small
            (ap (λ (l : ReplayLog P). l.entries) (evict_oldest-cons log x (push_back xs e) h)))
    | inr o ↦
        subst (λ (l : ReplayLog P). (ys : List (Entry P)) × (l.entries ≡ push_back ys e))
          (sym (trim-round fuel log false o)) (x ∷ xs, h)
  ]

  -- Appending an entry gives up the oldest entries and no others, in order, and keeps the new one if
  -- it is itself within the limit of 8 MiB.
  pub append_prepared_evicts :
      (e : Entry P) (log log' : ReplayLog P)
      → Inv log
      → append_prepared e log ≡ ok log'
      → DropsOldest (push_back log.entries e) log'.entries
        × (e.encoded_bytes ≤ max_replay_bytes
            → (ys : List (Entry P)) × (log'.entries ≡ push_back ys e))
  unfolding append_prepared
  append_prepared_evicts e log log' v h =
      let fuel = suc (suc (length log.entries)) in
      subst
        (λ (l : ReplayLog P).
          DropsOldest (push_back log.entries e) l.entries
          × (e.encoded_bytes ≤ max_replay_bytes
              → (ys : List (Entry P)) × (l.entries ≡ push_back ys e)))
        {x = trim fuel (with_entry e log)} {y = log'} (ground arith)
        (
          trim_drops fuel (with_entry e log),
          λ small.
              trim_keeps_newest fuel e log.entries (with_entry e log)
                (with_entry-Inv e log v (ground arith)) small refl,
        )
