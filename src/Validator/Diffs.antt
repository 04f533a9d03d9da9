-- ===== src/Validator/Diffs.antt =====
-- `GetCrSpecDiff`, `GetCrActualDiff` and `GetRootPaths` of
-- internal/controllers/srl/srlconfig_controller.go, and `getRootPaths` of utils.go.
use config_srl.Prelude.{
  ℕ, String, true, false, ◌&&◌, Option, none, some, List, [], ◌∷◌, map, is_empty,
}
use config_srl.Prelude.Dict.{lookup}
use config_srl.Prelude.Outcome.{Outcome, ok, panic, deref, ◌>>=◌}
use config_srl.Gnmi.{GnmiPath, Notification}
use config_srl.Api.{SrlConfig, Managed}
use config_srl.System.{Gvk, SystemDevice}
use config_srl.Libraries.{DeviceModel, Codec}
use config_srl.Diff.{validate_notification}
use config_srl.Validator.{CrSpecDiffObservation, CrActualDiffObservation, expect_srl_config}

module _ (m : DeviceModel) where
  open m use {
    new_config_struct, merge_struct_into, diff, deep_copy, json_unmarshal, to_gnmi_notifications,
  }

  -- The diff from the spec that the system cache holds to the one of the resource.
  unfoldable pub spec_diff : SrlConfig → Option Gvk → Outcome CrSpecDiffObservation
  spec_diff cr none = ok (record { deletes = []; updates = [] })
  spec_diff cr (some gvk) = do
    src_config ← new_config_struct cr.spec.properties false
    text ← deref gvk.spec
    spec_config ← new_config_struct text false
    n ← diff spec_config src_config
    (deletes, updates) ← validate_notification n
    ok (record { deletes = deletes; updates = updates })

  unfoldable pub get_cr_spec_diff :
      Codec → Managed → Option SystemDevice → Outcome CrSpecDiffObservation
  unfolding spec_diff
  get_cr_spec_diff lib mg system_cfg = do
    cr ← expect_srl_config mg
    system ← deref system_cfg
    spec_diff cr (lookup (lib.get_gvk_name mg) system.gvk)

  -- The diff from the running configuration to its merge with the spec.
  unfoldable pub get_cr_actual_diff : Managed → String → Outcome CrActualDiffObservation
  get_cr_actual_diff mg running_cfg = do
    cr ← expect_srl_config mg
    src_config ← new_config_struct running_cfg false
    spec_config ← new_config_struct cr.spec.properties false
    copy ← deep_copy src_config
    new_config ← merge_struct_into copy spec_config
    n ← diff src_config new_config
    (deletes, updates) ← validate_notification n
    ok (record {
      has_data = true;
      is_up_to_date = is_empty deletes && is_empty updates;
      deletes = deletes;
      updates = updates;
    })

  -- `getRootPaths`, which never fails.
  unfoldable pub notification_root_paths : Notification → List GnmiPath
  notification_root_paths n = m.root_paths (m.config_element_hierarchy n)

  -- `gnmiNotifications[0]`
  abbrev pub first : List Notification → Outcome Notification
  first [] = panic
  first (n ∷ _) = ok n

  -- `now` is the time of the call, `time.Now().UnixNano()`.
  unfoldable pub validator_root_paths : Codec → ℕ → Managed → Outcome (List String)
  unfolding notification_root_paths
  validator_root_paths lib now mg = do
    cr ← expect_srl_config mg
    srldevice ← json_unmarshal cr.spec.properties
    notifications ← to_gnmi_notifications srldevice now
    n ← first notifications
    ok (map lib.to_xpath (notification_root_paths n))
