-- ===== src/Api.antt =====
-- apis/srl/v1alpha1: the SrlConfig resource (srlconfig_types.go), its accessors
-- (zz_generated.managed.go) and the getters by label (srlconfig_interfaces.go).
pub mod Objects
pub mod Copies
pub mod Labels
pub mod Accessors
pub mod Group
pub mod Interface
use config_srl.Prelude.{String, Option, none, some, List}
use config_srl.Prelude.Dict.{Dict}

-- nddv1.Reference
pub record Reference : Type 0 where
  pub name : String

-- nddv1.Lifecycle; the policies are texts.
pub record Lifecycle : Type 0 where
  pub deployment_policy : String
  pub deletion_policy : String

-- nddv1.Condition, without its time stamp.
pub record Condition : Type 0 where
  pub kind : String
  pub status : String
  pub reason : String
  pub message : String

-- metav1.ObjectMeta, the fields that the program reads.
pub record ObjectMeta : Type 0 where
  pub name : String
  pub namespace : String
  pub labels : Dict String

-- `properties` is the raw JSON of `Properties.Raw`.
pub record ConfigSpec : Type 0 where
  pub lifecycle : Lifecycle
  pub target_reference : Option Reference
  pub properties : String

-- nddv1.ResourceStatus, inlined; `health` is an opaque text.
pub record ConfigStatus : Type 0 where
  pub conditions : List Condition
  pub health : String
  pub root_paths : List String

pub record SrlConfig : Type 0 where
  pub metadata : ObjectMeta
  pub spec : ConfigSpec
  pub status : ConfigStatus

-- metav1.ListMeta is left out: nothing reads it.
pub record SrlConfigList : Type 0 where
  pub items : List SrlConfig

-- What another resource answers to the methods of resource.Managed that the program calls.
pub record OtherResource : Type 0 where
  pub metadata : ObjectMeta
  pub target_reference : Option Reference
  pub root_paths : List String

-- A value of the interface resource.Managed: `mg.(*SrlConfig)` succeeds on the first kind alone.
pub data Managed : Type 0 where
  srl_config : SrlConfig → Managed
  other_resource : OtherResource → Managed

abbrev pub as_srl_config : Managed → Option SrlConfig
as_srl_config (srl_config cr) = some cr
as_srl_config (other_resource _) = none

abbrev pub get_metadata : Managed → ObjectMeta
get_metadata (srl_config cr) = cr.metadata
get_metadata (other_resource r) = r.metadata

abbrev pub get_target_reference : Managed → Option Reference
get_target_reference (srl_config cr) = cr.spec.target_reference
get_target_reference (other_resource r) = r.target_reference

abbrev pub get_root_paths : Managed → List String
get_root_paths (srl_config cr) = cr.status.root_paths
get_root_paths (other_resource r) = r.root_paths
