-- ===== src/Provider/Catalog/Defaults.antt =====
-- What a valid catalog offers: the settings that it resolves, its default among them.
use agent_whiteboard.Base.{
  ℕ, ◌+◌, ◌≡◌, refl, sym, ◌∙◌, ap, Bool, true, false, not, ◌&&◌, ◌||◌, List, [], ◌∷◌, none, some,
  Str, str_eq, str_eq_refl, str_eq_iff, str_eq_symm, length, is_some, any, contains, keep,
  if◌then◌else◌, arith, Bool-cases, inl, inr,
}
use agent_whiteboard.Provider.Turn.{standard, ExecutionSettings, valid_settings}
use agent_whiteboard.Provider.Catalog.{
  ReasoningEffort, CatalogModel, model_bytes, efforts_from, valid_model, models_from, valid_catalog,
  is_fast, supports_effort, compatibility_from, compatibility, is_compatible, find_model, resolve,
  canonicalize,
}

-- What `Compatibility` finds compatible is what the first model of the name offers.
compatibility_from_iff :
    (s : ExecutionSettings) (models : List CatalogModel)
    → is_compatible (compatibility_from s models) ≡ elim (find_model s.model models) [
      | none ↦ false
      | some m ↦ supports_effort m s.effort && not (is_fast s.speed && not m.supports_fast)
    ]
unfolding compatibility_from find_model
compatibility_from_iff s [] = refl
compatibility_from_iff s (m ∷ ms) = ground (arith, compatibility_from_iff s ms)

-- The default effort of a valid model is one that it supports.
default_supported :
    (default : Str) (seen : List Str) (found : Bool) (es : List ReasoningEffort)
    → efforts_from default seen found es ≡ true
    → found || any (λ (e : ReasoningEffort). str_eq e.value default) es ≡ true
unfolding efforts_from
default_supported default seen found [] h = ground (arith, h)
default_supported default seen found (e ∷ es) h =
    ground
      (arith, h, default_supported default (e.value ∷ seen) (found || str_eq e.value default) es)

-- The default models after some of them.
abbrev pub defaults_of : List CatalogModel → List CatalogModel
defaults_of = keep λ m. m.is_default

default_count :
    (seen : List Str) (defaults total : ℕ) (ms : List CatalogModel)
    → models_from seen defaults total ms ≡ true
    → defaults + length (defaults_of ms) ≡ 1
unfolding models_from
default_count seen defaults total [] h = ground (arith, h)
default_count seen defaults total (m ∷ ms) h = ground (
  arith,
  h,
  default_count (m.model ∷ seen) (defaults + (if m.is_default then 1 else 0))
      (total + model_bytes m) ms,
)

-- A model that was seen is not found again.
seen_absent :
    (name : Str) (seen : List Str) (defaults total : ℕ) (ms : List CatalogModel)
    → models_from seen defaults total ms ≡ true
    → contains name seen ≡ true
    → find_model name ms ≡ none
unfolding models_from find_model
seen_absent name seen defaults total [] h c = refl
seen_absent name seen defaults total (m ∷ ms) h c = ground (
  arith,
  h,
  c,
  str_eq_iff m.model name,
  str_eq_symm name m.model,
  seen_absent name (m.model ∷ seen) (defaults + (if m.is_default then 1 else 0))
      (total + model_bytes m) ms,
)

-- A default model is what its name finds, and it is valid.
default_found :
    (seen : List Str) (defaults total : ℕ) (ms : List CatalogModel) (d : CatalogModel)
    (ds : List CatalogModel)
    → models_from seen defaults total ms ≡ true
    → defaults_of ms ≡ d ∷ ds
    → (find_model d.model ms ≡ some d) × (valid_model d ≡ true)
unfolding models_from find_model
default_found seen defaults total [] d ds h e = cc
default_found seen defaults total (m ∷ ms) d ds h e = elim (Bool-cases m.is_default) [
  | inl b ↦
      let same : m ≡ d = ground (arith, b, e) in
      (
        ground (arith, same, str_eq_refl d.model, ap (λ (x : CatalogModel). x.model) same),
        sym (ap valid_model same) ∙ ground (arith, h),
      )
  | inr b ↦
      let (found, valid) =
        default_found (m.model ∷ seen) (defaults + (if m.is_default then 1 else 0))
          (total + model_bytes m) ms d ds (ground (arith, h)) (ground (arith, b, e)) in
      (
        ground (
          arith,
          h,
          found,
          str_eq_symm m.model d.model,
          seen_absent d.model (m.model ∷ seen) (defaults + (if m.is_default then 1 else 0))
              (total + model_bytes m) ms,
        ),
        valid,
      )
]

abbrev pub default_settings : CatalogModel → ExecutionSettings
default_settings d = record { model = d.model; effort = d.default_effort; speed = standard }

one_default : (ds : List CatalogModel) → length ds ≡ 1 → (d : CatalogModel) × (ds ≡ d ∷ [])
one_default [] h = ground (arith, h)
one_default (d ∷ []) h = (d, refl)
one_default (d ∷ e ∷ ds) h = ground (arith, h)

default_settings_offered :
    (d : CatalogModel)
    → valid_model d ≡ true
    → (supports_effort d d.default_effort ≡ true) × (valid_settings (default_settings d) ≡ true)
unfolding valid_model valid_settings
default_settings_offered d h =
    (default_supported d.default_effort [] false d.efforts (ground (arith, h)), ground (arith, h))

-- Valid settings resolve in a valid catalog to the model of their name if it supports their effort and,
-- where they ask for it, the fast speed, and to nothing otherwise; and they are canonical if they
-- resolve.
pub resolve-offered :
    (s : ExecutionSettings) (models : List CatalogModel)
    → valid_catalog models ≡ true
    → valid_settings s ≡ true
    → (resolve s models ≡ elim (find_model s.model models) [
      | none ↦ none
      | some m ↦
          if supports_effort m s.effort && not (is_fast s.speed && not m.supports_fast)
          then some m
          else none
    ])
      × (canonicalize s models ≡ (if is_some (resolve s models) then some s else none))
unfolding resolve canonicalize compatibility
resolve-offered s models c v = (
  ground (arith, c, v, compatibility_from_iff s models),
  ground (arith, c, v, compatibility_from_iff s models),
)

-- A valid catalog has exactly one default model, and that model with its default effort at the
-- standard speed resolves to it.
pub default_resolves :
    (models : List CatalogModel)
    → valid_catalog models ≡ true
    → (d : CatalogModel) × (defaults_of models ≡ d ∷ [])
      × (resolve (default_settings d) models ≡ some d)
unfolding valid_catalog
default_resolves models h =
    let listed : models_from [] 0 0 models ≡ true = ground (arith, h) in
    let (d, one) =
      one_default (defaults_of models) (omega (arith, default_count [] 0 0 models listed)) in
    let (found, valid) = default_found [] 0 0 models d [] listed one in
    let (effort, settings) = default_settings_offered d valid in
    (
      d,
      one,
      (resolve-offered (default_settings d) models h settings).0 ∙ ground (arith, found, effort),
    )
