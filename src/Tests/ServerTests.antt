-- ===== src/Tests/ServerTests.antt =====
-- Two resources that are written at the same time, and a sequence of writes that is refused.
use config_srl.Prelude.{
  ◌≡◌, ◌≢◌, ◌↔◌, ◌⊎◌, refl, sym, ap, inl, inr, String, some, none, List, [], ◌∷◌, true, false,
  arith, eq_iff,
}
use config_srl.Prelude.Dict.{lookup}
use config_srl.Prelude.Interleaving.{Interleaving, ended, first_steps, second_steps}
use config_srl.Prelude.Outcome.{Error, err, new, wrap, ok, ok-injective}
use config_srl.Api.{SrlConfig, srl_config}
use config_srl.System.{ResourceAction, create_action, update_action, delete_action, SystemDevice}
use config_srl.Gvk.{gvk_entry}
use config_srl.Prelude.Calls.{check}
use config_srl.Gvk.{get_gvk_update}
use config_srl.Gnmi.{Update}
use config_srl.External.Messages.{system_replace}
use config_srl.External.Writes.{perform_iff}
use config_srl.External.{cr_target, get_system_config, set_or_wrap, update}
use config_srl.External.History.{Write, CanWrite, perform, perform_all, last_written}
use config_srl.External.Concurrent.{perform_all-Interleaving}
use config_srl.External.InSync.{perform_all-get_cr_spec_diff}
use config_srl.Validator.{no_observation, get_cr_status}
use config_srl.Validator.Diffs.{get_cr_spec_diff}
use config_srl.Tests.Models.{numbers, numbers-IsLawful, parse_number}
use config_srl.Tests.Resources.{cr, nothing_observed, origins}
use config_srl.Tests.Server.{
  lag, entry_of, json, device, log_library, log_server, log_server-IsSystemCache, log_server_starts,
}

abbrev pub write_of : SrlConfig → ResourceAction → Write
write_of x a = record {
  action = a;
  resource = srl_config x;
  observed = nothing_observed;
  entry = entry_of x.metadata.name a;
  text = json (entry_of x.metadata.name a);
}

pub CanWrite-cr :
    (a : ResourceAction)
    → CanWrite log_library origins log_server log_server-IsSystemCache (write_of cr a)
unfolding cr_target gvk_entry log_server-IsSystemCache
CanWrite-cr create_action = record {
  kept = inl refl;
  of_target = refl;
  made = refl;
  sent = refl;
  decoded = refl;
}
CanWrite-cr update_action = record {
  kept = inl refl;
  of_target = refl;
  made = refl;
  sent = refl;
  decoded = refl;
}
CanWrite-cr delete_action = record {
  kept = inl refl;
  of_target = refl;
  made = refl;
  sent = refl;
  decoded = refl;
}

pub CanWrite-lag :
    (a : ResourceAction)
    → CanWrite log_library origins log_server log_server-IsSystemCache (write_of lag a)
unfolding cr_target gvk_entry log_server-IsSystemCache
CanWrite-lag create_action = record {
  kept = inr refl;
  of_target = refl;
  made = refl;
  sent = refl;
  decoded = refl;
}
CanWrite-lag update_action = record {
  kept = inr refl;
  of_target = refl;
  made = refl;
  sent = refl;
  decoded = refl;
}
CanWrite-lag delete_action = record {
  kept = inr refl;
  of_target = refl;
  made = refl;
  sent = refl;
  decoded = refl;
}

-- One resource is created and updated while the other is created and deleted.
abbrev pub of_cr : List Write
of_cr = write_of cr create_action ∷ write_of cr update_action ∷ []

abbrev pub of_lag : List Write
of_lag = write_of lag create_action ∷ write_of lag delete_action ∷ []

abbrev pub mixed : List Write
mixed =
    write_of lag create_action
    ∷ write_of cr create_action
    ∷ write_of cr update_action
    ∷ write_of lag delete_action
    ∷ []

pub mixed-Interleaving : Interleaving of_cr of_lag mixed
mixed-Interleaving = second_steps _ (first_steps _ (first_steps _ (second_steps _ ended)))

pub lag_is_other : ◌≢◌ {A = String} "lag-1" "int-e1-30"
lag_is_other = ground (arith, eq_iff "lag-1" "int-e1-30")

perform_all-Interleaving_example :
    (w' : String) × (d' : SystemDevice) × (perform_all log_library origins log_server mixed ""
      ≡ (ok tt, w'))
    × (get_system_config log_library origins log_server (srl_config cr) w' ≡ (ok (some d'), w'))
    × (d'.cache ≡ some (record { exhausted = some 0 }))
    × (lookup "int-e1-30" d'.gvk
        ≡ last_written log_library origins log_server "int-e1-30" (lookup "int-e1-30" []) of_cr)
    × (lookup "lag-1" d'.gvk
        ≡ last_written log_library origins log_server "lag-1" (lookup "lag-1" []) of_lag)
unfolding cr_target
perform_all-Interleaving_example =
    perform_all-Interleaving log_library origins log_server log_server-IsSystemCache "int-e1-30"
      "lag-1" of_cr of_lag mixed (srl_config cr) "" (device "") mixed-Interleaving
      (refl, (refl, tt)) (lag_is_other, (lag_is_other, tt))
      (CanWrite-cr create_action, (CanWrite-cr update_action, tt))
      (CanWrite-lag create_action, (CanWrite-lag delete_action, tt)) lag_is_other refl
      log_server_starts

pub same_text :
    (raw text : String)
    → log_library.marshal_properties raw ≡ ok text
    → numbers.new_config_struct text false ≡ numbers.new_config_struct raw false
same_text raw text h = ap parse_number (sym (ok-injective raw text h))

perform_all-get_cr_spec_diff_example :
    (w' : String) × (d' : SystemDevice) × (perform_all log_library origins log_server mixed ""
      ≡ (ok tt, w'))
    × (get_system_config log_library origins log_server (srl_config cr) w' ≡ (ok (some d'), w'))
    × (get_cr_spec_diff numbers log_library (srl_config cr) (some d')
        ≡ ok (record { deletes = []; updates = [] }))
    × (get_cr_status log_library (srl_config cr) (some d')
        ≡ ok (record no_observation { exists = true; pending = true }))
perform_all-get_cr_spec_diff_example =
    perform_all-get_cr_spec_diff log_library origins log_server log_server-IsSystemCache numbers
      numbers-IsLawful same_text cr update_action nothing_observed
      (entry_of "int-e1-30" update_action) (json (entry_of "int-e1-30" update_action))
      (write_of cr create_action ∷ []) of_lag mixed "" (device "") (record { exhausted = some 0 }) 1
      mixed-Interleaving (lag_is_other, (lag_is_other, tt))
      (CanWrite-cr create_action, (CanWrite-cr update_action, tt))
      (CanWrite-lag create_action, (CanWrite-lag delete_action, tt)) log_server_starts refl refl
      refl

-- A resource whose writes are refused.
abbrev locked : Write
locked = write_of (record cr { metadata = record cr.metadata { name = "locked" } }) update_action

perform_iff_example :
    ((perform log_library origins log_server update_action locked.resource nothing_observed ""
        ≡ (ok tt, ""))
      ↔ ((us : List Update) × (t : String) × (get_gvk_update log_library locked.resource
              nothing_observed update_action
            ≡ ok us)
          × (cr_target log_library origins locked.resource ≡ ok t)
          × (log_server.set (system_replace origins t us) "" ≡ (none, ""))))
    × ((e : Error)
        → (perform log_library origins log_server update_action locked.resource nothing_observed ""
            ≡ (err e, ""))
          ↔ (((cause : Error) × (get_gvk_update log_library locked.resource nothing_observed
                    update_action
                  ≡ err cause)
                × (e ≡ wrap cause "cannot create Device")
                × (◌≡◌ {A = String} "" ""))
              ⊎ ((cause : Error) × ((us : List Update) × (t : String) × (get_gvk_update log_library
                        locked.resource nothing_observed update_action
                      ≡ ok us)
                    × (cr_target log_library origins locked.resource ≡ ok t)
                    × (log_server.set (system_replace origins t us) "" ≡ (some cause, "")))
                  × (e ≡ wrap cause "cannot update Device"))))
perform_iff_example =
    perform_iff log_library origins log_server update_action locked.resource nothing_observed "" ""

-- The server refuses it.
locked_is_refused :
    perform log_library origins log_server update_action locked.resource nothing_observed ""
    ≡ (err (wrap (new "refused") "cannot update Device"), "")
unfolding perform update set_or_wrap check get_gvk_update gvk_entry cr_target
locked_is_refused = refl
