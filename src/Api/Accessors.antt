-- ===== src/Api/Accessors.antt =====
-- The accessors of apis/srl/v1alpha1/zz_generated.managed.go for policies, conditions and health, and
-- `GetSpec` of srlconfig_interfaces.go.
use config_srl.Prelude.{String, Option, none, some, List}
use config_srl.Api.{ConfigSpec, SrlConfig, Condition}
use config_srl.Api.Objects.{Objects, Pointer, load, modify}

abbrev pub get_deployment_policy : SrlConfig → String
get_deployment_policy x = x.spec.lifecycle.deployment_policy

abbrev pub get_deletion_policy : SrlConfig → String
get_deletion_policy x = x.spec.lifecycle.deletion_policy

-- The methods of nddv1.ConditionedStatus, on its conditions.
pub record ConditionedStatus : Type 0 where
  pub get_condition : List Condition → String → Condition
  pub set_conditions : List Condition → List Condition → List Condition

module _ (status : ConditionedStatus) where
  abbrev pub get_condition : SrlConfig → String → Condition
  get_condition x kind = status.get_condition x.status.conditions kind

  abbrev pub set_conditions : List Condition → SrlConfig → SrlConfig
  set_conditions c x = record x {
    status = record x.status { conditions = status.set_conditions x.status.conditions c };
  }

abbrev pub set_health_conditions : String → SrlConfig → SrlConfig
set_health_conditions c x = record x { status = record x.status { health = c } }

-- `GetSpec` gives a pointer into the resource: what a read and a write through it do.
abbrev pub load_spec : Pointer → Objects → Option ConfigSpec
load_spec p s = elim (load p s) [ none ↦ none | some x ↦ some x.spec ]

abbrev pub modify_spec : Pointer → (ConfigSpec → ConfigSpec) → Objects → Objects
modify_spec p f s = modify p (λ x. record x { spec = f x.spec }) s
