-- ===== src/State/Valid.antt =====
-- internal/agent/state/model.go and key.go: which mappings may be stored, and under which key.
pub mod Unique
use agent_whiteboard.Base.{
  ℕ, Bool, true, false, not, ◌&&◌, ◌||◌, List, [], ◌∷◌, ◌++◌, Option, none, some, Str, bytes,
  str_eq, length, is_empty, is_some, any, all, contains, leb, ◌==◌, if◌then◌else◌,
}
use agent_whiteboard.Agent.{Platform}
use agent_whiteboard.Agent.Digest.{length_prefixed, hex}
use agent_whiteboard.Common.Id.{valid_id}
use agent_whiteboard.Config.Origin.{Network, canonical_browser_origin}
use agent_whiteboard.Provider.Text.{
  valid_utf8, valid_bounded_text, valid_context_digest, has_disallowed_c0,
}
use agent_whiteboard.Provider.Turn.{valid_settings, valid_presentation}
use agent_whiteboard.Attachment.{known_provider}
use agent_whiteboard.State.{
  Time, before, Identity, Revision, PreparedCommit, Session, Mapping, sessions, resource_markdown,
  resource_html, revision_initial, revision_replacement, commit_prepared, commit_accepted,
}
use agent_whiteboard.State.Equal.{eq_identity, eq_revision}

abbrev pub schema_version : ℕ
schema_version = 2

abbrev pub max_native_reference_bytes : ℕ
max_native_reference_bytes = 1024

abbrev pub max_display_label_bytes : ℕ
max_display_label_bytes = 512

-- `validStoredTime`.
abbrev pub valid_stored_time : Time → Bool
valid_stored_time t = not (t.instant == 0) && t.utc

-- `validDisplayLabel`.
unfoldable pub valid_display_label : Str → Bool
valid_display_label value =
    valid_utf8 value && leb (length value) max_display_label_bytes && not (has_disallowed_c0 value)

-- `Revision.validate`.
unfoldable pub valid_revision : Revision → Bool
valid_revision r =
    valid_context_digest r.digest
    && (str_eq r.revision revision_initial || str_eq r.revision revision_replacement)
    && valid_stored_time r.source_updated_at

-- `PreparedCommit.validate`.
unfoldable pub valid_prepared : PreparedCommit → Bool
valid_prepared p =
    valid_revision p.revision
    && valid_id p.turn_id
    && (str_eq p.phase commit_prepared || str_eq p.phase commit_accepted)

abbrev pub valid_if_some {ℓ} : {A : Type ℓ} → (A → Bool) → Option A → Bool
valid_if_some valid none = true
valid_if_some valid (some a) = valid a

-- `strings.Split(value, "/")`.
unfoldable pub split_slashes : Str → List Str
split_slashes [] = [] ∷ []
split_slashes (c ∷ s) =
    let rest = split_slashes s in
    if c == b'/' then [] ∷ rest else elim rest [ [] ↦ (c ∷ []) ∷ [] | t ∷ ts ↦ (c ∷ t) ∷ ts ]

abbrev absolute : Str → Bool
absolute [] = false
absolute (c ∷ s) = c == b'/'

abbrev proper_component : Str → Bool
proper_component c = not (is_empty c) && not (str_eq c (bytes ".")) && not (str_eq c (bytes ".."))

-- `MaxNativeReferenceBytes` of the provider, which is larger than that of the state.
abbrev max_provider_reference_bytes : ℕ
max_provider_reference_bytes = 8192

-- `NativeSessionRef.Valid` of the provider, which `NewNativeSessionRef` tests as well.
unfoldable pub valid_reference_text : Str → Bool
valid_reference_text value =
    valid_bounded_text value max_provider_reference_bytes true && not (any (◌==◌ 0) value)

-- The settings of a session and what is shown of them come together.
abbrev pub settings_complete : Session → Bool
settings_complete s = elim s.settings [
  | none ↦ not (is_some s.presentation)
  | some settings ↦ elim s.presentation [
    | none ↦ false
    | some presentation ↦
        valid_settings settings
        && valid_presentation presentation
        && str_eq s.model_label presentation.model_display_name
  ]
]

-- A prepared revision is the one last observed.
abbrev pub prepared_observed : Option PreparedCommit → Option Revision → Bool
prepared_observed none observed = true
prepared_observed (some p) none = false
prepared_observed (some p) (some observed) = eq_revision p.revision observed

-- What `ConversationKey` hashes: its domain and the parts of the identity, each behind its length.
unfoldable pub key_input : Identity → List ℕ
key_input i =
    bytes "agent-whiteboard-conversation-key-v1"
    ++ length_prefixed i.origin
        (length_prefixed i.kind (length_prefixed i.capability_id (length_prefixed i.provider [])))

module _ (p : Platform) (n : Network) where
  -- `Identity.Validate`.
  unfoldable pub valid_identity : Identity → Bool
  valid_identity i =
      elim (canonical_browser_origin n i.origin) [
        | none ↦ false
        | some canonical ↦ str_eq canonical i.origin
      ]
      && (str_eq i.kind resource_markdown || str_eq i.kind resource_html)
      && valid_id i.capability_id
      && known_provider i.provider

  -- `validateNativeSessionRef`.
  unfoldable pub valid_native_session : Str → Bool
  valid_native_session value =
      not (is_empty value)
      && leb (length value) max_native_reference_bytes
      && valid_utf8 value
      && not (any (◌==◌ 0) value)
      && not (absolute value)
      && str_eq (p.clean_path value) value
      && not (str_eq value (bytes "."))
      && all proper_component (split_slashes value)
      && valid_reference_text value

  -- `Session.validate`.
  unfoldable pub valid_session : Session → Bool
  valid_session s =
      valid_id s.conversation_id
      && valid_stored_time s.created_at
      && valid_stored_time s.updated_at
      && not (before s.updated_at s.created_at)
      && valid_display_label s.provider_label
      && valid_display_label s.model_label
      && valid_native_session s.native_session
      && settings_complete s
      && valid_if_some valid_revision s.committed
      && valid_if_some valid_revision s.observed
      && valid_if_some valid_prepared s.prepared
      && prepared_observed s.prepared s.observed

  -- `validateForProvider`: only older sessions of Pi may have no settings.
  unfoldable pub valid_for_provider : Str → Session → Bool
  valid_for_provider provider s =
      valid_session s
      && (str_eq provider (bytes "pi")
          || ((str_eq provider (bytes "codex") || str_eq provider (bytes "cursor"))
              && is_some s.settings
              && is_some s.presentation))

  -- `validateUnique` of each session in turn, with the sets of what it has seen.
  unfoldable pub valid_sessions : Str → List Str → List Str → List Session → Bool
  valid_sessions provider seen_ids seen_native [] = true
  valid_sessions provider seen_ids seen_native (s ∷ ss) =
      valid_for_provider provider s
      && not (contains s.conversation_id seen_ids)
      && not (contains s.native_session seen_native)
      && valid_sessions provider (s.conversation_id ∷ seen_ids) (s.native_session ∷ seen_native) ss

  -- `Mapping.validate(nil)`.
  unfoldable pub valid_mapping : Mapping → Bool
  valid_mapping m =
      m.schema_version == schema_version
      && valid_identity m.identity
      && valid_stored_time m.created_at
      && valid_stored_time m.updated_at
      && not (before m.updated_at m.created_at)
      && (is_some m.current || not (is_empty m.archives))
      && valid_sessions m.identity.provider [] [] (sessions m)

  -- `Mapping.Validate`.
  unfoldable pub valid_mapping_of : Identity → Mapping → Bool
  valid_mapping_of expected m = valid_mapping m && eq_identity m.identity expected

  -- `ConversationKey`; none is the error of an identity that is not valid.
  unfoldable pub conversation_key : Identity → Option Str
  conversation_key i = if valid_identity i then some (hex (p.sha256 (key_input i))) else none
