-- ===== src/Api/Interface.antt =====
-- The interface IFSrlConfig of apis/srl/v1alpha1/srlconfig_interfaces.go, and SrlConfig as a value of
-- it. The embedded interfaces are those of Kubernetes; `GetSpec` is read only here.
use config_srl.Prelude.{String, Option, List}
use config_srl.Api.{Reference, Condition, ConfigSpec, SrlConfig, srl_config}
use config_srl.Api.{get_target_reference, get_root_paths}
use config_srl.Api.Objects.{
  set_deployment_policy, set_deletion_policy, set_target_reference, set_root_paths,
}
use config_srl.Api.Labels.{
  LabelNames, get_owner, get_device_name, get_endpoint_group, get_organization, get_deployment,
  get_availability_zone,
}
use config_srl.Api.Accessors.{
  ConditionedStatus, get_deployment_policy, get_deletion_policy, get_condition, set_conditions,
}

pub record IfSrlConfig (S : Type 0) : Type 0 where
  pub get_deployment_policy : S → String
  pub set_deployment_policy : String → S → S
  pub get_deletion_policy : S → String
  pub set_deletion_policy : String → S → S
  pub get_target_reference : S → Option Reference
  pub set_target_reference : Option Reference → S → S
  pub get_root_paths : S → List String
  pub set_root_paths : List String → S → S
  pub get_condition : S → String → Condition
  pub set_conditions : List Condition → S → S
  pub get_owner : S → String
  pub get_device_name : S → String
  pub get_endpoint_group : S → String
  pub get_organization : S → String
  pub get_deployment : S → String
  pub get_availability_zone : S → String
  pub get_spec : S → ConfigSpec

-- `var _ IFSrlConfig = &SrlConfig{}`
abbrev pub srl_config_interface : ConditionedStatus → LabelNames → IfSrlConfig SrlConfig
srl_config_interface status names = record {
  get_deployment_policy = get_deployment_policy;
  set_deployment_policy = set_deployment_policy;
  get_deletion_policy = get_deletion_policy;
  set_deletion_policy = set_deletion_policy;
  get_target_reference = λ x. get_target_reference (srl_config x);
  set_target_reference = set_target_reference;
  get_root_paths = λ x. get_root_paths (srl_config x);
  set_root_paths = set_root_paths;
  get_condition = get_condition status;
  set_conditions = set_conditions status;
  get_owner = get_owner names;
  get_device_name = get_device_name names;
  get_endpoint_group = get_endpoint_group names;
  get_organization = get_organization names;
  get_deployment = get_deployment names;
  get_availability_zone = get_availability_zone names;
  get_spec = λ x. x.spec;
}
