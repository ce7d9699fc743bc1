-- ===== src/Examples/Catalog.antt =====
-- The model catalog of internal/agent/provider/settings.go with two models.
use agent_whiteboard.Base.{true, false, ◌∷◌, ◌≡◌, refl, [], some, bytes, List}
use agent_whiteboard.Provider.Turn.{fast, ExecutionSettings}
use agent_whiteboard.Provider.Catalog.{
  CatalogModel, efforts_from, valid_model, models_from, valid_catalog, resolve,
}
use agent_whiteboard.Provider.Catalog.Defaults.{defaults_of, default_settings, default_resolves}
use agent_whiteboard.Examples.Data.{queue_runs}

abbrev small : CatalogModel
small = record {
  model = bytes "small";
  display_name = bytes "Small";
  description = [];
  default_effort = bytes "low";
  efforts = record { value = bytes "low"; description = [] } ∷ [];
  supports_images = false;
  is_default = false;
  supports_fast = true;
}

abbrev large : CatalogModel
large = record {
  model = bytes "large";
  display_name = bytes "Large";
  description = [];
  default_effort = bytes "high";
  efforts =
      record { value = bytes "low"; description = [] }
      ∷ record { value = bytes "high"; description = [] }
      ∷ [];
  supports_images = true;
  is_default = true;
  supports_fast = false;
}

abbrev two_models : List CatalogModel
two_models = small ∷ large ∷ []

abbrev fast_small : ExecutionSettings
fast_small = record { model = bytes "small"; effort = bytes "low"; speed = fast }

two_models_valid : valid_catalog two_models ≡ true
unfolding queue_runs valid_catalog models_from valid_model efforts_from
two_models_valid = refl

default_resolves_example :
    (d : CatalogModel) × (defaults_of two_models ≡ d ∷ [])
    × (resolve (default_settings d) two_models ≡ some d)
default_resolves_example = default_resolves two_models two_models_valid
