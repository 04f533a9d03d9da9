-- ===== src/Api/Labels.antt =====
-- The getters by label of apis/srl/v1alpha1/srlconfig_interfaces.go.
use config_srl.Prelude.{String, none, some}
use config_srl.Prelude.Dict.{Dict, lookup}
use config_srl.Api.{SrlConfig}

-- The texts of nddov1.LabelNddaOwner and the others.
pub record LabelNames : Type 0 where
  pub owner : String
  pub device : String
  pub endpoint_group : String
  pub organization : String
  pub deployment : String
  pub availability_zone : String

-- `x.GetLabels()`; a nil map has no key.
abbrev pub get_labels : SrlConfig → Dict String
get_labels x = x.metadata.labels

-- `if s, ok := x.GetLabels()[name]; !ok { return "" } else { return s }`
unfoldable pub get_label : String → SrlConfig → String
get_label name x = elim (lookup name (get_labels x)) [ none ↦ "" | some s ↦ s ]

module _ (names : LabelNames) where
  unfoldable pub get_owner : SrlConfig → String
  unfolding get_label
  get_owner x = get_label names.owner x

  unfoldable pub get_device_name : SrlConfig → String
  unfolding get_label
  get_device_name x = get_label names.device x

  unfoldable pub get_endpoint_group : SrlConfig → String
  unfolding get_label
  get_endpoint_group x = get_label names.endpoint_group x

  unfoldable pub get_organization : SrlConfig → String
  unfolding get_label
  get_organization x = get_label names.organization x

  unfoldable pub get_deployment : SrlConfig → String
  unfolding get_label
  get_deployment x = get_label names.deployment x

  unfoldable pub get_availability_zone : SrlConfig → String
  unfolding get_label
  get_availability_zone x = get_label names.availability_zone x
