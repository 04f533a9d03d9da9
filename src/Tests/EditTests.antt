-- ===== src/Tests/EditTests.antt =====
-- A resource that is edited after it was written, on the server that keeps a log, and the entry of
-- one that differs from the running configuration.
use config_srl.Prelude.{ℕ, ◌≡◌, ◌↔◌, refl, String, List, map, none, false, some, [], ◌∷◌}
use config_srl.Prelude.Dict.{lookup, insert}
use config_srl.Prelude.Outcome.{ok}
use config_srl.Api.{SrlConfig, srl_config}
use config_srl.System.{create_action, update_action, delete_action, SystemDevice, Gvk}
use config_srl.Gnmi.{string_val, Notification}
use config_srl.Diff.{validate_notification}
use config_srl.Diff.Repair.{trim, trim_update}
use config_srl.Gvk.{gvk_entry, get_updates}
use config_srl.Gvk.Updates.{encoded, last_entry}
use config_srl.Gvk.ActualDiff.{observe_diff, gvk_entry-get_cr_actual_diff}
use config_srl.Validator.Convergence.{up_to_date}
use config_srl.Validator.{CrSpecDiffObservation, CrActualDiffObservation}
use config_srl.Validator.Changes.{IsEmpty, get_cr_spec_diff_correct}
use config_srl.Validator.Diffs.{get_cr_spec_diff, get_cr_actual_diff}
use config_srl.External.{cr_target, get_system_config}
use config_srl.External.History.{perform_all}
use config_srl.External.Changed.{perform_all-edited}
use config_srl.Tests.Models.{path_to, numbers, numbers-IsLawful, texts}
use config_srl.Tests.Resources.{cr, entry, nothing_observed, origins, full_device}
use config_srl.Tests.Server.{
  entry_of, json, device, log_library, log_server, log_server-IsSystemCache, log_server_starts,
}
use config_srl.Tests.ServerTests.{
  write_of, CanWrite-cr, CanWrite-lag, of_lag, mixed, mixed-Interleaving, lag_is_other, same_text,
}

-- The resource with another spec.
abbrev edited_cr : SrlConfig
edited_cr = record cr { spec = record cr.spec { properties = "{}" } }

entry_is_stored : lookup "int-e1-30" full_device.gvk ≡ some entry
unfolding lookup
entry_is_stored = refl

get_cr_spec_diff_correct_example :
    (o : CrSpecDiffObservation) × (get_cr_spec_diff numbers texts
        (srl_config edited_cr)
        (some full_device)
      ≡ ok o)
    × (IsEmpty o ↔ ◌≡◌ {A = ℕ} 1 0)
get_cr_spec_diff_correct_example =
    get_cr_spec_diff_correct numbers numbers-IsLawful texts edited_cr full_device entry_is_stored
      refl refl refl

perform_all-edited_example :
    (w' : String) × (d' : SystemDevice) × (perform_all log_library origins log_server mixed ""
      ≡ (ok tt, w'))
    × ((edited : SrlConfig) (now : numbers.Config)
        → log_library.get_gvk_name (srl_config edited) ≡ "int-e1-30"
        → cr_target log_library origins (srl_config edited) ≡ ok "ndd-system/leaf1"
        → numbers.new_config_struct edited.spec.properties false ≡ ok now
        → (get_system_config log_library origins log_server (srl_config edited) w'
            ≡ (ok (some d'), w'))
          × ((o : CrSpecDiffObservation) × (get_cr_spec_diff numbers log_library
                  (srl_config edited)
                  (some d')
                ≡ ok o)
              × (IsEmpty o ↔ (1 ≡ now))))
perform_all-edited_example =
    perform_all-edited log_library origins log_server log_server-IsSystemCache numbers
      numbers-IsLawful same_text cr update_action nothing_observed
      (entry_of "int-e1-30" update_action) (json (entry_of "int-e1-30" update_action))
      (write_of cr create_action ∷ []) of_lag mixed "" (device "") 1 mixed-Interleaving
      (lag_is_other, (lag_is_other, tt))
      (CanWrite-cr create_action, (CanWrite-cr update_action, tt))
      (CanWrite-lag create_action, (CanWrite-lag delete_action, tt)) log_server_starts refl

-- The change from the running configuration to the spec of one.
abbrev one_update : CrActualDiffObservation
one_update = up_to_date [] (record { path = path_to "number"; val = string_val "one" } ∷ [])

one_update_observed : get_cr_actual_diff numbers (srl_config cr) "{}" ≡ ok one_update
unfolding get_cr_actual_diff validate_notification
one_update_observed = refl

abbrev entry_of_change : Gvk
entry_of_change = record entry {
  action = update_action;
  update = ("number", record { path = some "number"; value = some "one" }) ∷ [];
}

entry_of_change_made :
    gvk_entry texts (srl_config cr) (observe_diff one_update) update_action ≡ ok entry_of_change
unfolding gvk_entry get_updates insert
entry_of_change_made = refl

gvk_entry-get_cr_actual_diff_example :
    (running : ℕ) × (spec : ℕ) × (copy : ℕ) × (merged : ℕ) × (n : Notification) × (ps : List
      (String × String))
    × (numbers.new_config_struct "{}" false ≡ ok running)
    × (numbers.new_config_struct cr.spec.properties false ≡ ok spec)
    × (numbers.deep_copy running ≡ ok copy)
    × (numbers.merge_struct_into copy spec ≡ ok merged)
    × (numbers.diff running merged ≡ ok n)
    × (entry_of_change.delete ≡ map texts.to_xpath (map (λ p. (trim p).1) n.delete))
    × (encoded texts (map trim_update n.update) ≡ ok ps)
    × ((x : String) → lookup x entry_of_change.update ≡ last_entry x none ps)
gvk_entry-get_cr_actual_diff_example =
    gvk_entry-get_cr_actual_diff numbers texts cr "{}" one_update update_action entry_of_change
      one_update_observed entry_of_change_made
