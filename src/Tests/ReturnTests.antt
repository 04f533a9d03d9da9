-- ===== src/Tests/ReturnTests.antt =====
-- Calls that panic and calls that return, on the server that keeps a log.
use config_srl.Prelude.{◌≡◌, ◌↔◌, refl, String, Option, none, some, List, arith}
use config_srl.Prelude.Dict.{lookup}
use config_srl.Prelude.Outcome.{ok, panic}
use config_srl.Prelude.Returns.{Returns, ok-Returns, err-Returns}
use config_srl.Gnmi.{TypedValue, Update, nil_value, json_val, string_val, other_val}
use config_srl.Api.{srl_config, Managed, get_target_reference}
use config_srl.System.{ResourceAction, create_action, update_action, SystemDevice}
use config_srl.Gvk.{ExternalObservation, get_gvk_update}
use config_srl.External.{cr_target, get_running_config, get_system_config}
use config_srl.External.History.{perform, perform_all}
use config_srl.External.Returns.{CodecReturns}
use config_srl.External.Panics.{calls-panic}
use config_srl.External.Complete.{perform_all-IsComplete}
use config_srl.Validator.{get_cr_status, validate_cr_spec_update, validate_cr_spec_delete}
use config_srl.Validator.Diffs.{get_cr_spec_diff, get_cr_actual_diff}
use config_srl.Validator.Complete.{IsComplete}
use config_srl.Validator.Returns.{ModelReturns}
use config_srl.Tests.Models.{numbers, parse_number}
use config_srl.Tests.Resources.{cr, origins}
use config_srl.Tests.Server.{
  device, log_library, log_server, log_server-IsSystemCache, log_server_starts,
}
use config_srl.Tests.ServerTests.{CanWrite-cr, of_cr}

get_value-Returns : (v : TypedValue) → Returns (log_library.get_value v)
get_value-Returns nil_value = ok-Returns _
get_value-Returns (json_val s) = ok-Returns _
get_value-Returns (string_val s) = ok-Returns _
get_value-Returns (other_val kind s) = err-Returns _

json_marshal-Returns : (v : Option String) → Returns (log_library.json_marshal v)
json_marshal-Returns none = ok-Returns _
json_marshal-Returns (some s) = ok-Returns _

log_library-CodecReturns : CodecReturns log_library
log_library-CodecReturns = record {
  get_value = get_value-Returns;
  json_marshal = json_marshal-Returns;
  marshal_properties = λ text. ok-Returns _;
  emit_json = λ g. ok-Returns _;
  new_system_struct = λ text. ok-Returns _;
}

parse_number-Returns : (text : String) → Returns (parse_number text)
parse_number-Returns text h = ground arith

numbers-ModelReturns : ModelReturns numbers
numbers-ModelReturns = record {
  new_config_struct = λ text validated. parse_number-Returns text;
  json_unmarshal = parse_number-Returns;
  merge_struct_into = λ a b. ok-Returns _;
  merge_overwrite_into = λ a b. ok-Returns _;
  diff = λ a b. ok-Returns _;
  deep_copy = λ a. ok-Returns _;
  to_gnmi_notifications = λ a now. ok-Returns _;
  delete_node = λ a p. ok-Returns _;
}

abbrev untargeted : Managed
untargeted = srl_config (record cr { spec = record cr.spec { target_reference = none } })

calls-panic_example :
    ((get_running_config log_library origins log_server untargeted "").0 ≡ panic
      ↔ get_target_reference untargeted ≡ none)
    × ((get_system_config log_library origins log_server untargeted "").0 ≡ panic
        ↔ get_target_reference untargeted ≡ none)
    × ((action : ResourceAction) (obs : ExternalObservation)
        → (perform log_library origins log_server action untargeted obs "").0 ≡ panic
          ↔ (get_target_reference untargeted ≡ none)
            × ((us : List Update) × (get_gvk_update log_library untargeted obs action ≡ ok us)))
calls-panic_example =
    calls-panic log_library origins log_server log_library-CodecReturns untargeted ""

empty-IsComplete : IsComplete (device "")
unfolding lookup
empty-IsComplete = record {
  counter = (record { exhausted = some 0 }, 0, refl, refl);
  entries = λ name g e. cc e;
}

perform_all-IsComplete_example :
    (w' : String) × (d' : SystemDevice) × (perform_all log_library origins log_server of_cr ""
      ≡ (ok tt, w'))
    × IsComplete d'
    × ((mg : Managed) (running : String)
        → cr_target log_library origins mg ≡ ok "ndd-system/leaf1"
        → (get_system_config log_library origins log_server mg w' ≡ (ok (some d'), w'))
          × Returns (get_cr_status log_library mg (some d'))
          × Returns (get_cr_spec_diff numbers log_library mg (some d'))
          × Returns (get_cr_actual_diff numbers mg running)
          × Returns (validate_cr_spec_update numbers mg running)
          × Returns (validate_cr_spec_delete numbers mg running))
perform_all-IsComplete_example =
    perform_all-IsComplete log_library origins log_server log_server-IsSystemCache numbers
      numbers-ModelReturns of_cr "" (device "")
      (CanWrite-cr create_action, (CanWrite-cr update_action, tt)) log_server_starts
      empty-IsComplete
