-- ===== src/Libraries.antt =====
-- The third-party code that the controllers call, as parameters. No law is assumed here: a theorem
-- that relies on one takes it as a hypothesis. A library call may fail or panic.
use config_srl.Prelude.{ℕ, String, Bool, Option, List}
use config_srl.Prelude.Outcome.{Outcome}
use config_srl.Gnmi.{GnmiPath, TypedValue, Notification}
use config_srl.Api.{Managed}
use config_srl.System.{Gvk, SystemDevice}

-- github.com/yndd/cache/pkg/model with github.com/openconfig/ygot over ygotsrl, and
-- github.com/yndd/cache/pkg/rootpaths over its schema. A function that writes to its argument
-- returns the new value.
pub record DeviceModel : Type 1 where
  pub Config : Type 0
  -- `NewConfigStruct(bytes, validate)`
  pub new_config_struct : String → Bool → Outcome Config
  pub json_unmarshal : String → Outcome Config
  -- `MergeStructInto(dst, src)` and with `MergeOverwriteExistingFields`
  pub merge_struct_into : Config → Config → Outcome Config
  pub merge_overwrite_into : Config → Config → Outcome Config
  -- `Validate()`, or with `LeafrefOptions{IgnoreMissingData}`: the error's text
  pub validate : Option Bool → Config → Option String
  pub diff : Config → Config → Outcome Notification
  pub deep_copy : Config → Outcome Config
  -- `TogNMINotifications(s, timestamp, {UsePathElem: true})`
  pub to_gnmi_notifications : Config → ℕ → Outcome (List Notification)
  pub delete_node : Config → GnmiPath → Outcome Config
  pub prune_empty_branches : Config → Config
  pub RootElement : Type 0
  pub PathAndSchema : Type 0
  pub create_root_config_element : RootElement
  pub get_path_and_schema_entry : GnmiPath → PathAndSchema
  pub add : RootElement → PathAndSchema → TypedValue → RootElement
  pub config_element_hierarchy : Notification → RootElement
  pub root_paths : RootElement → List GnmiPath

-- yparser, encoding/json, gvkresource, meta and ygot's emitter. `none` is the nil interface value.
pub record Codec : Type 1 where
  pub Value : Type 0
  -- `yparser.GnmiPath2XPath(p, true)`
  pub to_xpath : GnmiPath → String
  -- `yparser.GetValue`
  pub get_value : TypedValue → Outcome (Option Value)
  pub json_marshal : Option Value → Outcome String
  -- `json.Marshal(cr.Spec.Properties)`
  pub marshal_properties : String → Outcome String
  -- `gvkresource.GetGvkName`
  pub get_gvk_name : Managed → String
  -- `meta.GetNamespacedName(namespace, name)`
  pub get_namespaced_name : String → String → String
  -- `ygot.EmitJSON(gvk, RFC7951)`
  pub emit_json : Gvk → Outcome String
  -- `systemModel.NewConfigStruct(bytes, true)`, asserted to be a *ygotnddp.Device (`none` if not)
  pub new_system_struct : String → Outcome (Option SystemDevice)
