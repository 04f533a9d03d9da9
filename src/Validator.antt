-- ===== src/Validator.antt =====
-- `validatorDevice` of internal/controllers/srl/srlconfig_controller.go and `getRootPaths` of
-- utils.go. Loggers and contexts are left out. A nil byte slice is the empty text.
pub mod Diffs
pub mod Status
pub mod Spec
pub mod Convergence
pub mod Changes
pub mod Complete
pub mod Returns
use config_srl.Prelude.{
  String, Bool, true, false, not, Option, none, some, List, [], ◌∷◌, if◌then◌else◌, nat_eq,
}
use config_srl.Prelude.Dict.{lookup}
use config_srl.Prelude.Outcome.{Outcome, ok, err, new, deref, ◌>>=◌}
use config_srl.Gnmi.{GnmiPath, Update, Notification}
use config_srl.Api.{SrlConfig, Managed, as_srl_config}
use config_srl.System.{ResourceStatus, pending, failed, other_status, Gvk, SystemDevice}
use config_srl.Libraries.{DeviceModel, Codec}
use config_srl.Diff.{validate_notification}

-- managed.CrObservation
pub record CrObservation : Type 0 where
  pub exhausted : Bool
  pub exists : Bool
  pub pending : Bool
  pub failed : Bool
  pub message : String

-- managed.CrSpecObservation
pub record CrSpecObservation : Type 0 where
  pub success : Bool
  pub message : String

-- managed.CrSpecDiffObservation
pub record CrSpecDiffObservation : Type 0 where
  pub deletes : List GnmiPath
  pub updates : List Update

-- managed.CrActualDiffObservation
pub record CrActualDiffObservation : Type 0 where
  pub has_data : Bool
  pub is_up_to_date : Bool
  pub deletes : List GnmiPath
  pub updates : List Update

-- The zero value, of which each return sets some fields.
abbrev pub no_observation : CrObservation
no_observation = record {
  exhausted = false;
  exists = false;
  pending = false;
  failed = false;
  message = "";
}

abbrev pub unexpected_device : String
unexpected_device = "the managed resource is not a Device resource"

-- `cr, ok := mg.(*SrlConfig)` with the early return that follows it.
abbrev pub expect_srl_config : Managed → Outcome SrlConfig
expect_srl_config mg = elim (as_srl_config mg) [
  | none ↦ err (new unexpected_device)
  | some cr ↦ ok cr
]

-- The `switch gvk.Status`.
observe_gvk : Gvk → ResourceStatus → Outcome CrObservation
observe_gvk gvk pending = ok (record no_observation { exists = true; pending = true })
observe_gvk gvk failed = do
  reason ← deref gvk.reason
  ok (record no_observation { exists = true; failed = true; message = reason })
observe_gvk gvk other_status = ok (record no_observation { exists = true })

module _ (lib : Codec) where
  open lib use {get_gvk_name}

  observe_entry : SystemDevice → Managed → Outcome CrObservation
  unfolding observe_gvk lookup
  observe_entry system mg = elim (lookup (get_gvk_name mg) system.gvk) [
    | none ↦ ok no_observation
    | some gvk ↦ observe_gvk gvk gvk.status
  ]

  unfoldable pub get_cr_status : Managed → Option SystemDevice → Outcome CrObservation
  unfolding observe_entry
  get_cr_status mg system_cfg = do
    system ← deref system_cfg
    cache ← deref system.cache
    exhausted ← deref cache.exhausted
    if not (nat_eq exhausted 0)
        then ok (record no_observation { exhausted = true })
        else observe_entry system mg

-- `if err := s.Validate(); err != nil` and the observation on either side.
abbrev pub observe_validation : Option String → CrSpecObservation
observe_validation none = record { success = true; message = "" }
observe_validation (some text) = record { success = false; message = text }

module _ (m : DeviceModel) where
  open m use {
    Config, new_config_struct, merge_struct_into, merge_overwrite_into, validate, diff, deep_copy,
    to_gnmi_notifications, delete_node, prune_empty_branches, RootElement, add,
  }

  unfoldable pub validate_cr_spec_update : Managed → String → Outcome CrSpecObservation
  validate_cr_spec_update mg running_cfg = do
    cr ← expect_srl_config mg
    run ← new_config_struct running_cfg true
    spec ← new_config_struct cr.spec.properties false
    merged ← merge_overwrite_into run spec
    ok (observe_validation (validate none merged))

  -- The inner loop over the updates of one notification.
  unfoldable pub add_updates : RootElement → List Update → RootElement
  add_updates rp [] = rp
  add_updates rp (dp ∷ updates) =
      add_updates (add rp (m.get_path_and_schema_entry dp.path) dp.val) updates

  unfoldable pub add_notifications : RootElement → List Notification → RootElement
  add_notifications rp [] = rp
  add_notifications rp (n ∷ notifications) =
      add_notifications (add_updates rp n.update) notifications

  unfoldable pub delete_nodes : Config → List GnmiPath → Outcome Config
  delete_nodes run [] = ok run
  delete_nodes run (p ∷ paths) = delete_node run p >>= λ next. delete_nodes next paths

  unfoldable pub validate_cr_spec_delete : Managed → String → Outcome CrSpecObservation
  unfolding add_updates add_notifications delete_nodes
  validate_cr_spec_delete mg running_cfg = do
    cr ← expect_srl_config mg
    run ← new_config_struct running_cfg true
    spec ← new_config_struct cr.spec.properties false
    notifications ← to_gnmi_notifications spec 0
    let rp = add_notifications m.create_root_config_element notifications
    deleted ← delete_nodes run (m.root_paths rp)
    ok (observe_validation (validate (some false) (prune_empty_branches deleted)))
