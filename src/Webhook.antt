-- ===== src/Webhook.antt =====
-- apis/srl/v1alpha1/srlconfig_webhook.go and webhook.common.go: admission of SrlConfig resources.
-- Logging is left out. `Default` only logs, so it returns the resource that it is given.
pub mod Laws
use config_srl.Prelude.{String, false, Option, none, some, List, [], ◌∷◌}
use config_srl.Prelude.Outcome.{Outcome, ok, err, panic, error_text}
use config_srl.Api.{SrlConfig}
use config_srl.Libraries.{DeviceModel}

-- field.Error, as `field.Invalid` makes it.
pub record FieldError : Type 0 where
  pub field : String
  pub bad_value : String
  pub detail : String

-- What `apierrors.NewInvalid` is given.
pub record InvalidResource : Type 0 where
  pub group : String
  pub kind : String
  pub name : String
  pub errors : List FieldError

-- The end of `ValidateCreate` and `ValidateUpdate`.
invalid_unless_empty : SrlConfig → List FieldError → Option InvalidResource
invalid_unless_empty r [] = none
invalid_unless_empty r (e ∷ errors) = some (record {
  group = "srl3.nddp.yndd.io";
  kind = "Srl3Device";
  name = r.metadata.name;
  errors = e ∷ errors;
})

abbrev pub append_error : Option FieldError → List FieldError
append_error none = []
append_error (some e) = e ∷ []

pub default : SrlConfig → SrlConfig
default r = r

module _ (m : DeviceModel) where
  unfoldable pub validate_spec : String → Outcome (Option FieldError)
  validate_spec spec = elim (m.new_config_struct spec false) [
    | ok _ ↦ ok none
    | err e ↦ ok (some (record { field = "spec"; bad_value = spec; detail = error_text e }))
    | panic ↦ panic
  ]

  unfoldable pub validate_create : SrlConfig → Outcome (Option InvalidResource)
  unfolding validate_spec invalid_unless_empty
  validate_create r = elim (validate_spec r.spec.properties) [
    | ok e ↦ ok (invalid_unless_empty r (append_error e))
    | err e ↦ err e
    | panic ↦ panic
  ]

  unfoldable pub validate_update :
      {Object : Type 0} → SrlConfig → Object → Outcome (Option InvalidResource)
  unfolding validate_spec invalid_unless_empty
  validate_update r old = elim (validate_spec r.spec.properties) [
    | ok e ↦ ok (invalid_unless_empty r (append_error e))
    | err e ↦ err e
    | panic ↦ panic
  ]

unfoldable pub validate_delete : SrlConfig → Option InvalidResource
validate_delete r = none
