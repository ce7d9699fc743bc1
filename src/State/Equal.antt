-- ===== src/State/Equal.antt =====
-- Equality of the records of internal/agent/state/model.go, by `==` and `reflect.DeepEqual`. The
-- pointers of a mapping are compared by what they point to.
use agent_whiteboard.Base.{
  Bool, true, false, ◌&&◌, List, [], ◌∷◌, Option, none, some, str_eq, str_eq_iff, ◌==◌, ==_iff, ◌≡◌,
  refl, false≢true, ◌↔◌, arith,
}
use agent_whiteboard.Provider.Turn.{
  ExecutionSettings, ExecutionSpeed, standard, fast, unknown_speed, ModelPresentation,
}
use agent_whiteboard.State.{Time, Identity, Revision, PreparedCommit, Session, Mapping}

-- A test that decides equality.
abbrev pub Decides {ℓ} : {A : Type ℓ} → (A → A → Bool) → Type ℓ
Decides {A = A} eq = (a b : A) → (eq a b ≡ true) ↔ (a ≡ b)

abbrev pub eq_bool : Bool → Bool → Bool
eq_bool true true = true
eq_bool false false = true
eq_bool _ _ = false

unfoldable pub eq_option {ℓ} : {A : Type ℓ} → (A → A → Bool) → Option A → Option A → Bool
eq_option eq none none = true
eq_option eq (some a) (some b) = eq a b
eq_option eq _ _ = false

unfoldable pub eq_list {ℓ} : {A : Type ℓ} → (A → A → Bool) → List A → List A → Bool
eq_list eq [] [] = true
eq_list eq (a ∷ xs) (b ∷ ys) = eq a b && eq_list eq xs ys
eq_list eq _ _ = false

unfoldable pub eq_time : Time → Time → Bool
eq_time a b = a.instant == b.instant && eq_bool a.utc b.utc

unfoldable pub eq_identity : Identity → Identity → Bool
eq_identity a b =
    str_eq a.origin b.origin
    && str_eq a.kind b.kind
    && str_eq a.capability_id b.capability_id
    && str_eq a.provider b.provider

unfoldable pub eq_revision : Revision → Revision → Bool
eq_revision a b =
    str_eq a.digest b.digest
    && str_eq a.revision b.revision
    && eq_time a.source_updated_at b.source_updated_at

unfoldable pub eq_prepared : PreparedCommit → PreparedCommit → Bool
eq_prepared a b =
    eq_revision a.revision b.revision && str_eq a.turn_id b.turn_id && str_eq a.phase b.phase

abbrev eq_speed : ExecutionSpeed → ExecutionSpeed → Bool
eq_speed standard standard = true
eq_speed fast fast = true
eq_speed (unknown_speed a) (unknown_speed b) = str_eq a b
eq_speed _ _ = false

unfoldable pub eq_settings : ExecutionSettings → ExecutionSettings → Bool
eq_settings a b = str_eq a.model b.model && str_eq a.effort b.effort && eq_speed a.speed b.speed

unfoldable pub eq_presentation : ModelPresentation → ModelPresentation → Bool
eq_presentation a b =
    str_eq a.model_display_name b.model_display_name && eq_bool a.selectable b.selectable

-- What a session is, and what it is bound to.
eq_bookkeeping : Session → Session → Bool
eq_bookkeeping a b =
    str_eq a.conversation_id b.conversation_id
    && str_eq a.native_session b.native_session
    && eq_time a.created_at b.created_at
    && eq_time a.updated_at b.updated_at
    && str_eq a.provider_label b.provider_label
    && str_eq a.model_label b.model_label

eq_bindings : Session → Session → Bool
eq_bindings a b =
    eq_option eq_settings a.settings b.settings
    && eq_option eq_presentation a.presentation b.presentation
    && eq_option eq_revision a.committed b.committed
    && eq_option eq_revision a.observed b.observed
    && eq_option eq_prepared a.prepared b.prepared

unfoldable pub eq_session : Session → Session → Bool
unfolding eq_bookkeeping eq_bindings
eq_session a b = eq_bookkeeping a b && eq_bindings a b

unfoldable pub eq_mapping : Mapping → Mapping → Bool
eq_mapping a b =
    a.schema_version == b.schema_version
    && eq_identity a.identity b.identity
    && eq_option eq_session a.current b.current
    && eq_list eq_session a.archives b.archives
    && eq_time a.created_at b.created_at
    && eq_time a.updated_at b.updated_at

eq_bool-Decides : Decides eq_bool
eq_bool-Decides true true = ground arith
eq_bool-Decides true false = ground arith
eq_bool-Decides false true = ground arith
eq_bool-Decides false false = ground arith

pub eq_option-Decides {ℓ} : {A : Type ℓ} (eq : A → A → Bool) → Decides eq → Decides (eq_option eq)
unfolding eq_option
eq_option-Decides eq d none none = ground arith
eq_option-Decides eq d none (some b) = ground arith
eq_option-Decides eq d (some a) none = ground arith
eq_option-Decides eq d (some a) (some b) = ground (arith, d a b)

pub eq_list-Decides {ℓ} : {A : Type ℓ} (eq : A → A → Bool) → Decides eq → Decides (eq_list eq)
unfolding eq_list
eq_list-Decides eq d [] [] = ground arith
eq_list-Decides eq d [] (b ∷ bs) = ground arith
eq_list-Decides eq d (a ∷ xs) [] = ground arith
eq_list-Decides eq d (a ∷ xs) (b ∷ ys) = ground (arith, d a b, eq_list-Decides eq d xs ys)

pub eq_time-Decides : Decides eq_time
unfolding eq_time
eq_time-Decides a b = ground (arith, ==_iff a.instant b.instant, eq_bool-Decides a.utc b.utc)

pub eq_identity-Decides : Decides eq_identity
unfolding eq_identity
eq_identity-Decides a b = ground (
  arith,
  str_eq_iff a.origin b.origin,
  str_eq_iff a.kind b.kind,
  str_eq_iff a.capability_id b.capability_id,
  str_eq_iff a.provider b.provider,
)

pub eq_revision-Decides : Decides eq_revision
unfolding eq_revision
eq_revision-Decides a b = ground (
  arith,
  str_eq_iff a.digest b.digest,
  str_eq_iff a.revision b.revision,
  eq_time-Decides a.source_updated_at b.source_updated_at,
)

pub eq_prepared-Decides : Decides eq_prepared
unfolding eq_prepared
eq_prepared-Decides a b = ground (
  arith,
  eq_revision-Decides a.revision b.revision,
  str_eq_iff a.turn_id b.turn_id,
  str_eq_iff a.phase b.phase,
)

eq_speed-Decides : Decides eq_speed
eq_speed-Decides standard standard = ground arith
eq_speed-Decides standard fast = ground arith
eq_speed-Decides standard (unknown_speed b) = ground arith
eq_speed-Decides fast standard = ground arith
eq_speed-Decides fast fast = ground arith
eq_speed-Decides fast (unknown_speed b) = ground arith
eq_speed-Decides (unknown_speed a) standard = ground arith
eq_speed-Decides (unknown_speed a) fast = ground arith
eq_speed-Decides (unknown_speed a) (unknown_speed b) = ground (arith, str_eq_iff a b)

pub eq_settings-Decides : Decides eq_settings
unfolding eq_settings
eq_settings-Decides a b = ground (
  arith,
  str_eq_iff a.model b.model,
  str_eq_iff a.effort b.effort,
  eq_speed-Decides a.speed b.speed,
)

pub eq_presentation-Decides : Decides eq_presentation
unfolding eq_presentation
eq_presentation-Decides a b = ground (
  arith,
  str_eq_iff a.model_display_name b.model_display_name,
  eq_bool-Decides a.selectable b.selectable,
)

and_iff {ℓ κ} :
    {a b : Bool} {P : Type ℓ} {Q : Type κ}
    → (a ≡ true) ↔ P
    → (b ≡ true) ↔ Q
    → ((a && b) ≡ true) ↔ (P × Q)
and_iff {a = true} {b = b} p q = (λ h. (p.0 refl, q.0 h), λ r. q.1 r.1)
and_iff {a = false} {b = b} p q = (λ h. absurd (false≢true h), λ r. p.1 r.0)

eq_bookkeeping-parts :
    (a b : Session)
    → (eq_bookkeeping a b ≡ true) ↔ (
        (((((a.conversation_id ≡ b.conversation_id) × (a.native_session ≡ b.native_session))
              × (a.created_at ≡ b.created_at))
            × (a.updated_at ≡ b.updated_at))
          × (a.provider_label ≡ b.provider_label))
        × (a.model_label ≡ b.model_label))
unfolding eq_bookkeeping
eq_bookkeeping-parts a b =
    and_iff
      (and_iff
        (and_iff
          (and_iff
            (and_iff (str_eq_iff a.conversation_id b.conversation_id)
              (str_eq_iff a.native_session b.native_session))
            (eq_time-Decides a.created_at b.created_at))
          (eq_time-Decides a.updated_at b.updated_at))
        (str_eq_iff a.provider_label b.provider_label))
      (str_eq_iff a.model_label b.model_label)

eq_bindings-parts :
    (a b : Session)
    → (eq_bindings a b ≡ true) ↔ (
        ((((a.settings ≡ b.settings) × (a.presentation ≡ b.presentation))
            × (a.committed ≡ b.committed))
          × (a.observed ≡ b.observed))
        × (a.prepared ≡ b.prepared))
unfolding eq_bindings
eq_bindings-parts a b =
    and_iff
      (and_iff
        (and_iff
          (and_iff (eq_option-Decides eq_settings eq_settings-Decides a.settings b.settings) (
            eq_option-Decides eq_presentation eq_presentation-Decides a.presentation
              b.presentation))
          (eq_option-Decides eq_revision eq_revision-Decides a.committed b.committed))
        (eq_option-Decides eq_revision eq_revision-Decides a.observed b.observed))
      (eq_option-Decides eq_prepared eq_prepared-Decides a.prepared b.prepared)

pub eq_session-Decides : Decides eq_session
unfolding eq_session
eq_session-Decides a b = ground (arith, eq_bookkeeping-parts a b, eq_bindings-parts a b)

pub eq_mapping-Decides : Decides eq_mapping
unfolding eq_mapping
eq_mapping-Decides a b = ground (
  arith,
  ==_iff a.schema_version b.schema_version,
  eq_identity-Decides a.identity b.identity,
  eq_option-Decides eq_session eq_session-Decides a.current b.current,
  eq_list-Decides eq_session eq_session-Decides a.archives b.archives,
  eq_time-Decides a.created_at b.created_at,
  eq_time-Decides a.updated_at b.updated_at,
)
