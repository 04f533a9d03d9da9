-- ===== src/Api/Group.antt =====
-- The group of the resource and its names, of groupversion_info.go and srlconfig_types.go.
use config_srl.Prelude.{String, ◌<>◌, List, [], ◌∷◌}

abbrev pub group : String
group = "config.yndd.io"

abbrev pub version : String
version = "v1alpha1"

-- The name of the Go type, by reflection.
abbrev pub srl_config_kind_name : String
srl_config_kind_name = "SrlConfig"

-- The `String` methods of apimachinery's GroupKind and GroupVersion.
pub record SchemaTexts : Type 0 where
  pub group_kind_text : String → String → String
  pub group_version_text : String → String → String

pub record GroupVersionKind : Type 0 where
  pub group : String
  pub version : String
  pub kind : String

module _ (texts : SchemaTexts) where
  abbrev pub srl_config_group_kind : String
  srl_config_group_kind = texts.group_kind_text group srl_config_kind_name

  abbrev pub srl_config_kind_api_version : String
  srl_config_kind_api_version =
      srl_config_kind_name <> ("." <> texts.group_version_text group version)

-- `GroupVersion.WithKind`
abbrev pub srl_config_group_version_kind : GroupVersionKind
srl_config_group_version_kind = record {
  group = group;
  version = version;
  kind = srl_config_kind_name;
}

-- The types that `init` registers in the scheme.
abbrev pub registered_types : List String
registered_types = srl_config_kind_name ∷ "SrlConfigList" ∷ []
