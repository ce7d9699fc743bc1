-- ===== src/Examples/Replay.antt =====
-- The log of internal/agent/broker/replay.go on concrete events.
use agent_whiteboard.Base.{
  ◌∷◌, ◌≡◌, ◌≤◌, refl, [], some, length, List, push_back, str_eq, lookup, ℕ,
}
use agent_whiteboard.Broker.Replay.{
  Event, Entry, ReplayLog, ok, err, cursor_missing, new_log, append_prepared, contains_event_id,
  trim, over_limit, visible, replay, from_cursor, after_cursor, max_replay_events, max_replay_bytes,
}
use agent_whiteboard.Broker.Replay.Evicted.{Inv, new-Inv}
use agent_whiteboard.Broker.Replay.Invariant.{append_prepared-Inv}
use agent_whiteboard.Broker.Replay.Eviction.{DropsOldest, append_prepared_evicts}
use agent_whiteboard.Broker.Replay.History.{appends, appends_except, run, run-Fits}
use agent_whiteboard.Broker.Replay.Visibility.{replay_hides, replay_resumes}
use agent_whiteboard.Examples.Data.{queue_runs, turn_a, turn_b, image_a, message_a, message_b}

abbrev event_a : Event ℕ
event_a = record { event_id = turn_a; payload = 1 }

abbrev event_b : Event ℕ
event_b = record { event_id = turn_b; payload = 2 }

abbrev entry_a : Entry ℕ
entry_a = record { event = event_a; target = []; excluded = []; encoded_bytes = 90 }

abbrev entry_b : Entry ℕ
entry_b = record { event = event_b; target = []; excluded = []; encoded_bytes = 80 }

-- An event for another client.
abbrev entry_hidden : Entry ℕ
entry_hidden = record {
  event = record { event_id = image_a; payload = 3 };
  target = message_b;
  excluded = [];
  encoded_bytes = 70;
}

abbrev log_of_a : ReplayLog ℕ
log_of_a = record { entries = entry_a ∷ []; total = 90; evicted = []; evicted_order = [] }

abbrev log_of_a_b : ReplayLog ℕ
log_of_a_b = record {
  entries = entry_a ∷ entry_b ∷ [];
  total = 170;
  evicted = [];
  evicted_order = [];
}

abbrev log_with_hidden : ReplayLog ℕ
log_with_hidden = record {
  entries = entry_a ∷ entry_hidden ∷ [];
  total = 160;
  evicted = [];
  evicted_order = [];
}

append_a : append_prepared entry_a new_log ≡ ok log_of_a
unfolding append_prepared contains_event_id trim over_limit lookup str_eq
append_a = refl

append_b : append_prepared entry_b log_of_a ≡ ok log_of_a_b
unfolding append_prepared contains_event_id trim over_limit lookup str_eq
append_b = refl

append_hidden : append_prepared entry_hidden log_of_a ≡ ok log_with_hidden
unfolding append_prepared contains_event_id trim over_limit lookup str_eq
append_hidden = refl

log_of_a-Inv : Inv log_of_a
log_of_a-Inv = (append_prepared-Inv entry_a new_log log_of_a new-Inv append_a).0

log_of_a_b-Inv : Inv log_of_a_b
log_of_a_b-Inv = (append_prepared-Inv entry_b log_of_a log_of_a_b log_of_a-Inv append_b).0

log_with_hidden-Inv : Inv log_with_hidden
log_with_hidden-Inv =
    (append_prepared-Inv entry_hidden log_of_a log_with_hidden log_of_a-Inv append_hidden).0

run-Fits_example :
    let log =
      run
        (λ _. some 60)
        (appends event_a [] ∷ appends event_a [] ∷ appends_except message_a event_b ∷ [])
        new_log in
    Inv log × (length log.entries ≤ max_replay_events) × (log.total ≤ max_replay_bytes)
run-Fits_example =
    run-Fits (λ _. some 60)
      (appends event_a [] ∷ appends event_a [] ∷ appends_except message_a event_b ∷ [])

append_prepared_evicts_example :
    DropsOldest (entry_a ∷ entry_b ∷ []) log_of_a_b.entries
    × (80 ≤ max_replay_bytes → (ys : List (Entry ℕ)) × (log_of_a_b.entries ≡ push_back ys entry_b))
append_prepared_evicts_example =
    append_prepared_evicts entry_b log_of_a log_of_a_b log_of_a-Inv append_b

replay_hides_example : replay message_a image_a log_of_a ≡ replay message_a image_a log_with_hidden
replay_hides_example =
    replay_hides message_a image_a log_of_a log_with_hidden log_of_a-Inv log_with_hidden-Inv
      (unfold visible str_eq in refl) (unfold lookup str_eq in refl)

hidden_cursor : replay message_a image_a log_with_hidden ≡ err cursor_missing
unfolding queue_runs replay from_cursor after_cursor visible
hidden_cursor = refl

replay_resumes_example : replay message_a turn_a log_of_a_b ≡ ok (event_b ∷ [])
replay_resumes_example =
    replay_resumes message_a event_a [] (event_b ∷ []) log_of_a_b log_of_a_b-Inv
      (unfold queue_runs in refl) (unfold queue_runs replay visible in refl)
