-- ===== src/Examples/State.antt =====
-- The durable state of internal/agent/state and its repair by the broker on concrete mappings.
use agent_whiteboard.Base.{
  ℕ, true, false, List, [], ◌∷◌, Option, none, some, Str, bytes, str_eq, lookup, insert, ◌≡◌, refl,
  arith,
}
use mathlib.Core.Option
use agent_whiteboard.Agent.Digest.{hex, hex_digit, length_prefixed, be64}
use agent_whiteboard.Common.Id.{valid_id, decode, sextets, dec_char, join_sextets, is_line_break}
use agent_whiteboard.Provider.Text.{
  valid_utf8, utf8_from, followers, has_disallowed_c0, valid_bounded_text, valid_context_digest,
}
use agent_whiteboard.Config.Origin.{
  Network, OriginUrl, canonical_browser_origin, canonical_origin, to_lower, exact_text, bare_origin,
  origin_host, split_origin_host, port_of, port_suffix, canonical_origin_host, numeric_host, cut,
}
use agent_whiteboard.State.{
  Time, Identity, Revision, Session, Mapping, sessions, commit_accepted, revision_replacement,
}
use agent_whiteboard.State.Equal.{
  eq_option, eq_list, eq_time, eq_identity, eq_revision, eq_prepared, eq_settings, eq_presentation,
  eq_session, eq_mapping,
}
use agent_whiteboard.State.Valid.{
  valid_display_label, valid_revision, valid_prepared, split_slashes, valid_reference_text,
  key_input, valid_identity, valid_native_session, valid_session, valid_for_provider,
  valid_sessions, valid_mapping, valid_mapping_of, conversation_key,
}
use agent_whiteboard.State.Transition.{
  index_sessions, snapshot_sessions, clamp_session_times, valid_transition_to,
  valid_session_transitions,
}
use agent_whiteboard.State.Transition.Index.{find_session}
use agent_whiteboard.State.Store.{Io, Store, done, failed, verify_layout, begin, finish}
use agent_whiteboard.State.Store.Access.{
  create, load, commit_locked, load_locked, on_key, update_mapping, update_at_expected_transition,
}
use agent_whiteboard.State.Update.{
  prepared_of, observe_revision, acknowledge_committed, prepare_commit, on_prepared,
  promote_prepared, mark_accepted, reconcile_prepared, on_current,
}
use agent_whiteboard.State.Calls.{
  observes, Call, creates, prepares, accepts, promotes, update, run, step, updates, apply_change,
  acceptable,
}
use agent_whiteboard.State.Calls.Sound.{store_run-Sound}
use agent_whiteboard.State.Calls.Kept.{Sound}
use agent_whiteboard.State.Calls.Prepared.{Resolved, prepared_survives}
use agent_whiteboard.State.Calls.Committed.{Justified, committed_changes}
use agent_whiteboard.Broker.Repair.Foretold.{foretold, Outcome, store_writes_foretold}
use agent_whiteboard.Broker.Repair.Proven.{promote_accepted_proven}
use agent_whiteboard.Broker.Repair.{
  classify_loaded_state, mutate_twice, Attempt, promote_accepted, promoted_mapping,
}
use agent_whiteboard.Examples.Data.{platform, turn_a, message_a, message_b}

-- What the calls on the store compute with.
unfoldable state_runs : Unit {0}
unfolding str_eq lookup insert valid_id decode Option.bind sextets dec_char join_sextets
    is_line_break valid_utf8 utf8_from followers has_disallowed_c0 valid_bounded_text
    valid_context_digest hex hex_digit length_prefixed be64 canonical_browser_origin
    canonical_origin to_lower exact_text bare_origin origin_host split_origin_host cut port_of
    port_suffix canonical_origin_host numeric_host eq_option eq_list eq_time eq_identity eq_revision
    eq_prepared eq_settings eq_presentation eq_session eq_mapping valid_display_label valid_revision
    valid_prepared split_slashes valid_reference_text key_input valid_identity valid_native_session
    valid_session valid_for_provider valid_sessions valid_mapping valid_mapping_of conversation_key
    index_sessions snapshot_sessions clamp_session_times valid_transition_to
    valid_session_transitions verify_layout begin finish commit_locked load_locked on_key
    update_mapping update_at_expected_transition create run step observe_revision
    acknowledge_committed prepare_commit on_prepared promote_prepared mark_accepted
    reconcile_prepared on_current apply_change acceptable update
state_runs = tt

abbrev page_origin : OriginUrl
page_origin = record {
  scheme = bytes "https";
  host = bytes "p.example";
  has_user = false;
  opaque = [];
  path = [];
  raw_path = [];
  raw_query = [];
  force_query = false;
  fragment = [];
}

-- One URL, no addresses, and names that are ASCII.
abbrev network : Network
network = record {
  parse_url = λ _. some page_origin;
  parse_address = λ _. none;
  to_ascii = λ host. some host;
  trim_space = λ text. text;
}

abbrev time_at : ℕ → Time
time_at n = record { instant = n; utc = true }

abbrev identity : Identity
identity = record {
  origin = bytes "https://p.example";
  kind = bytes "markdown";
  capability_id = message_a;
  provider = bytes "pi";
}

abbrev digest_a : Str
digest_a = bytes "aaaaaaaaaaaaaaaaaaaaaaaaaaaaaaaaaaaaaaaaaaaaaaaaaaaaaaaaaaaaaaaa"

abbrev revision_a : Revision
revision_a = record {
  digest = digest_a;
  revision = revision_replacement;
  source_updated_at = time_at 3;
}

abbrev session_new : Session
session_new = record {
  conversation_id = message_b;
  native_session = bytes "native/1";
  created_at = time_at 5;
  updated_at = time_at 6;
  provider_label = bytes "Pi";
  model_label = bytes "m";
  settings = none;
  presentation = none;
  committed = none;
  observed = none;
  prepared = none;
}

abbrev session_prepared : Session
session_prepared = record session_new {
  observed = some revision_a;
  prepared = some (prepared_of revision_a turn_a);
}

abbrev session_accepted : Session
session_accepted = record session_new {
  observed = some revision_a;
  prepared = some (record { revision = revision_a; turn_id = turn_a; phase = commit_accepted });
}

abbrev mapping_with : Session → Mapping
mapping_with s = record {
  schema_version = 2;
  identity = identity;
  current = some s;
  archives = [];
  created_at = time_at 5;
  updated_at = time_at 6;
}

abbrev key_a : Str
key_a = bytes "ab"

abbrev store_with : Session → Store
store_with s = record {
  closed = false;
  invalid_layout = false;
  files = (key_a, some (mapping_with s)) ∷ [];
}

-- The system answers without a failure.
abbrev smooth : Io
smooth = record {
  begin_verifies = true;
  readable = true;
  commit_verifies = true;
  staged = true;
  attempt = done;
  inspectable = true;
  synced = true;
  end_verifies = true;
}

valid_mapping_example : valid_mapping platform network (mapping_with session_accepted) ≡ true
unfolding state_runs
valid_mapping_example = refl

key_example : conversation_key platform network identity ≡ some key_a
unfolding state_runs
key_example = refl

abbrev empty_store : Store
empty_store = record { closed = false; invalid_layout = false; files = [] }

-- A conversation is created, a revision is prepared and accepted, and its promotion is uncertain once.
abbrev calls : List Call
calls =
    creates smooth identity session_new (time_at 6)
    ∷ updates smooth identity none (prepares revision_a turn_a) (time_at 7)
    ∷ updates smooth identity none (accepts turn_a) (time_at 8)
    ∷ updates (record smooth { attempt = failed true; inspectable = false }) identity none
        (promotes turn_a) (time_at 9)
    ∷ []

committed_in_the_end :
    lookup key_a (run platform network calls empty_store).files
    ≡ some (
        some
          (record (mapping_with
            (record session_new { updated_at = time_at 9; committed = some revision_a })) {
              created_at = time_at 6;
              updated_at = time_at 9;
            }))
unfolding state_runs
committed_in_the_end = refl

empty_store-Sound : Sound platform network empty_store
unfolding lookup
empty_store-Sound key m h = ground arith

store_run-Sound_example : Sound platform network (run platform network calls empty_store)
store_run-Sound_example = store_run-Sound platform network calls empty_store empty_store-Sound

prepared_survives_example :
    (new : Mapping) × (t : Session) × (lookup key_a
        (update platform network smooth identity none
          (observes revision_a)
          (time_at 9)
          (store_with session_prepared)).1.files
      ≡ some (some new))
    × (find_session message_b (sessions new) ≡ some t)
    × Resolved (prepared_of revision_a turn_a) t
prepared_survives_example =
    prepared_survives platform network smooth identity none (observes revision_a) (time_at 9)
      (store_with session_prepared) key_a (mapping_with session_prepared) message_b session_prepared
      (prepared_of revision_a turn_a) (unfold lookup str_eq in refl)
      (unfold find_session str_eq in refl) refl

committed_changes_example : Justified session_accepted (record session_accepted {
  updated_at = time_at 9;
  committed = some revision_a;
  observed = none;
  prepared = none;
})
committed_changes_example =
    committed_changes platform network smooth identity none (promotes turn_a) (time_at 9)
      (store_with session_accepted) key_a (mapping_with session_accepted)
      (promoted_mapping (time_at 9) (mapping_with session_accepted)) message_b session_accepted _
      (unfold lookup str_eq in refl) (unfold find_session str_eq in refl)
      (unfold state_runs promoted_mapping in refl)
      (unfold promoted_mapping find_session str_eq in refl)

abbrev failing_sync : Io
failing_sync = record smooth { synced = false }

store_writes_foretold_example :
    Outcome platform network key_a
      (mapping_with session_accepted)
      (foretold (promotes turn_a) (time_at 9) (mapping_with session_accepted))
      (store_with session_accepted)
      (update platform network failing_sync identity none
        (promotes turn_a)
        (time_at 9)
        (store_with session_accepted))
store_writes_foretold_example =
    store_writes_foretold platform network failing_sync identity none (promotes turn_a) (time_at 9)
      (store_with session_accepted) key_a (mapping_with session_accepted) key_example
      (unfold lookup str_eq in refl) refl refl

-- The first try ends in an error of the synchronisation, and the state that is read again is promoted.
abbrev attempt_unsynced : Attempt
attempt_unsynced = record { now = 9; mutation = failing_sync; reading = smooth }

abbrev promotion_of : Store → Option Mapping × Store
promotion_of =
    promote_accepted platform network identity attempt_unsynced attempt_unsynced
      (mapping_with session_accepted)

promote_accepted_proven_example :
    (lookup key_a (promotion_of (store_with session_accepted)).1.files
      ≡ some (some (promoted_mapping (time_at 9) (mapping_with session_accepted))))
    × ((at : Time) × (at.utc ≡ true)
        × (promoted_mapping (time_at 9) (mapping_with session_accepted)
            ≡ promoted_mapping at (mapping_with session_accepted)))
promote_accepted_proven_example =
    promote_accepted_proven platform network identity key_a (mapping_with session_accepted)
      attempt_unsynced attempt_unsynced (store_with session_accepted)
      (promoted_mapping (time_at 9) (mapping_with session_accepted)) key_example
      (unfold lookup str_eq in refl)
      (unfold state_runs promoted_mapping promote_accepted classify_loaded_state mutate_twice
          load in
        refl)
