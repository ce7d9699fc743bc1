-- ===== src/Provider/Catalog.antt =====
-- internal/agent/provider/settings.go: the catalog of a provider's models, and which execution settings
-- it offers. Clones are the values.
pub mod Defaults
use agent_whiteboard.Base.{
  ℕ, ◌+◌, Bool, true, false, not, ◌&&◌, ◌||◌, List, [], ◌∷◌, Option, none, some, Str, str_eq,
  length, is_empty, any, contains, sum_of, leb, ◌==◌, if◌then◌else◌,
}
use agent_whiteboard.Provider.Text.{valid_bounded_text}
use agent_whiteboard.Provider.Turn.{ExecutionSpeed, fast, ExecutionSettings, valid_settings}

abbrev pub max_catalog_models : ℕ
max_catalog_models = 256

abbrev pub max_reasoning_efforts : ℕ
max_reasoning_efforts = 16

abbrev pub max_catalog_bytes : ℕ
max_catalog_bytes = 131072

pub record ReasoningEffort : Type 0 where
  pub value : Str
  pub description : Str

pub record CatalogModel : Type 0 where
  pub model : Str
  pub display_name : Str
  pub description : Str
  pub default_effort : Str
  pub efforts : List ReasoningEffort
  pub supports_images : Bool
  pub is_default : Bool
  pub supports_fast : Bool

-- `ReasoningEffort.validate`.
abbrev pub valid_effort : ReasoningEffort → Bool
valid_effort e = valid_bounded_text e.value 64 true && valid_bounded_text e.description 2048 false

-- The loop of `CatalogModel.validate`, after the efforts `seen`; whether the default was found is
-- carried along.
unfoldable pub efforts_from : Str → List Str → Bool → List ReasoningEffort → Bool
efforts_from default seen found [] = found
efforts_from default seen found (e ∷ es) =
    valid_effort e
    && not (contains e.value seen)
    && efforts_from default (e.value ∷ seen) (found || str_eq e.value default) es

-- `CatalogModel.validate`.
unfoldable pub valid_model : CatalogModel → Bool
valid_model m =
    valid_bounded_text m.model 256 true
    && valid_bounded_text m.display_name 512 true
    && valid_bounded_text m.description 8192 false
    && valid_bounded_text m.default_effort 64 true
    && not (is_empty m.efforts)
    && leb (length m.efforts) max_reasoning_efforts
    && efforts_from m.default_effort [] false m.efforts

abbrev pub model_bytes : CatalogModel → ℕ
model_bytes m =
    length m.model
    + length m.display_name
    + length m.description
    + length m.default_effort
    + sum_of (λ (e : ReasoningEffort). length e.value + length e.description) m.efforts

-- The loop of `ModelCatalog.Validate` over its set and its two counts.
unfoldable pub models_from : List Str → ℕ → ℕ → List CatalogModel → Bool
models_from seen defaults total [] = defaults == 1
models_from seen defaults total (m ∷ ms) =
    valid_model m
    && not (contains m.model seen)
    && leb (total + model_bytes m) max_catalog_bytes
    && models_from (m.model ∷ seen) (defaults + (if m.is_default then 1 else 0))
        (total + model_bytes m) ms

-- `ModelCatalog.Validate`.
unfoldable pub valid_catalog : List CatalogModel → Bool
valid_catalog models =
    not (is_empty models) && leb (length models) max_catalog_models && models_from [] 0 0 models

pub data Compatibility : Type 0 where
  compatible catalog_invalid model_unavailable effort_unsupported fast_unsupported : Compatibility

abbrev pub is_fast : ExecutionSpeed → Bool
is_fast fast = true
is_fast _ = false

abbrev pub supports_effort : CatalogModel → Str → Bool
supports_effort m effort = any (λ (e : ReasoningEffort). str_eq e.value effort) m.efforts

-- The loop of `Compatibility`, which the first model of the name decides.
unfoldable pub compatibility_from : ExecutionSettings → List CatalogModel → Compatibility
compatibility_from s [] = model_unavailable
compatibility_from s (m ∷ ms) =
    if not (str_eq m.model s.model)
    then compatibility_from s ms
    else if not (supports_effort m s.effort)
    then effort_unsupported
    else if is_fast s.speed && not m.supports_fast
    then fast_unsupported
    else compatible

-- `Compatibility`.
unfoldable pub compatibility : ExecutionSettings → List CatalogModel → Compatibility
compatibility s models =
    if not (valid_catalog models) || not (valid_settings s)
    then catalog_invalid
    else compatibility_from s models

abbrev pub is_compatible : Compatibility → Bool
is_compatible compatible = true
is_compatible _ = false

-- The loop of `Resolve`.
unfoldable pub find_model : Str → List CatalogModel → Option CatalogModel
find_model name [] = none
find_model name (m ∷ ms) = if str_eq m.model name then some m else find_model name ms

-- `Resolve`.
unfoldable pub resolve : ExecutionSettings → List CatalogModel → Option CatalogModel
resolve s models =
    if is_compatible (compatibility s models) then find_model s.model models else none

-- `Canonicalize`.
unfoldable pub canonicalize : ExecutionSettings → List CatalogModel → Option ExecutionSettings
canonicalize s models = elim (resolve s models) [ none ↦ none | some m ↦ some s ]
