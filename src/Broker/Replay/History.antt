-- ===== src/Broker/Replay/History.antt =====
-- Logs as calls leave them: any sequence of appends, refused ones included.
use agent_whiteboard.Base.{ℕ, ◌≤◌, ◌≡◌, refl, false, List, [], ◌∷◌, Option, Str, arith, length}
use agent_whiteboard.Broker.Replay.{
  Event, Entry, ReplayLog, Result, ok, err, prepare_append, append, append_except, append_prepared,
  over_limit, new_log, max_replay_events, max_replay_bytes,
}
use agent_whiteboard.Broker.Replay.Evicted.{Inv, new-Inv}
use agent_whiteboard.Broker.Replay.Invariant.{append_prepared-Inv}

-- One call that changes a log.
pub data Call (P : Type 0) : Type 0 where
  appends : Event P → Str → Call P
  appends_except : Str → Event P → Call P

module _ {P : Type 0} where
  settle : Result (ReplayLog P) → ReplayLog P → ReplayLog P
  settle (ok log') log = log'
  settle (err e) log = log

  module _ (wire_length : Event P → Option ℕ) where
    unfoldable pub step : Call P → ReplayLog P → ReplayLog P
    unfolding settle
    step (appends event target) log = settle (append wire_length event target log) log
    step (appends_except client event) log = settle (append_except wire_length client event log) log

    unfoldable pub run : List (Call P) → ReplayLog P → ReplayLog P
    run [] log = log
    run (c ∷ cs) log = run cs (step c log)

  -- The invariant, and both limits.
  abbrev pub Fits : ReplayLog P → Type 0
  Fits log = Inv log × (over_limit log ≡ false)

  settle-Fits :
      (r : Result (ReplayLog P)) (log : ReplayLog P)
      → ((log' : ReplayLog P) → r ≡ ok log' → Fits log')
      → Fits log
      → Fits (settle r log)
  unfolding settle
  settle-Fits (ok log') log h v = h log' refl
  settle-Fits (err e) log h v = v

  -- `append` and `append_except` end in `append_prepared`, or refuse.
  append_from :
      (r : Result (Entry P)) (f : Entry P → Entry P) (log log' : ReplayLog P)
      → Inv log
      → elim r [ err e ↦ err e | ok entry ↦ append_prepared (f entry) log ] ≡ ok log'
      → Fits log'
  append_from (ok entry) f log log' v h = append_prepared-Inv (f entry) log log' v h
  append_from (err e) f log log' v h = cc

  module _ (wire_length : Event P → Option ℕ) where
    step-Fits : (c : Call P) (log : ReplayLog P) → Fits log → Fits (step wire_length c log)
    unfolding step append append_except
    step-Fits (appends event target) log v =
        settle-Fits (append wire_length event target log) log
          (λ log' h.
            append_from (prepare_append wire_length event target log) (λ e. e) log log' v.0 h)
          v
    step-Fits (appends_except client event) log v =
        settle-Fits (append_except wire_length client event log) log
          (λ log' h.
            append_from (prepare_append wire_length event [] log)
              (λ e. record e { excluded = client }) log log' v.0 (ground (arith, h)))
          v

    run_from : (cs : List (Call P)) (log : ReplayLog P) → Fits log → Fits (run wire_length cs log)
    unfolding run
    run_from [] log v = v
    run_from (c ∷ cs) log v = run_from cs (step wire_length c log) (step-Fits c log v)

    fits_limits :
        (log : ReplayLog P)
        → over_limit log ≡ false
        → (length log.entries ≤ max_replay_events) × (log.total ≤ max_replay_bytes)
    unfolding over_limit
    fits_limits log h = (ground (arith, h), ground (arith, h))

    -- After any sequence of appends to a new log, whatever the encodings' lengths, the log holds at
    -- most 2048 events of at most 8 MiB, its count of bytes is exact, the map and the order of the
    -- evicted entries agree, and no identifier stands twice.
    pub run-Fits :
        (cs : List (Call P))
        → let log = run wire_length cs new_log in
          Inv log × (length log.entries ≤ max_replay_events) × (log.total ≤ max_replay_bytes)
    run-Fits cs =
        let (v, fits) = run_from cs new_log (new-Inv, unfold over_limit in refl) in
        let (count, bytes) = fits_limits (run wire_length cs new_log) fits in (v, count, bytes)
