-- ===== src/Tests/ClientTests.antt =====
-- The client of one target on a small server, and a connection that finds its target.
use config_srl.Prelude.{
  String, List, Option, ◌≡◌, refl, Bool, true, if◌then◌else◌, ◌==◌, none, some, [], ◌∷◌,
}
use config_srl.Prelude.Dict.{lookup}
use config_srl.Prelude.Outcome.{ok, err, new, wrap}
use config_srl.Api.{srl_config, Managed}
use config_srl.System.{ResourceAction, create_action, update_action, delete_action, SystemDevice}
use config_srl.Validator.{no_observation, get_cr_status}
use config_srl.External.{
  GnmiClient, other_code, cr_target, create, get_running_config, get_system_config,
}
use config_srl.External.Set.{create-get_cr_status}
use config_srl.External.History.{
  Write, CanWrite, perform_all, last_written, perform_all-get_system_config,
}
use config_srl.External.Get.{get_no_response}
use config_srl.Connector.{
  find_address, cannot_create_client, TargetObject, ExternalDevice, Services, client_config,
  connect,
}
use config_srl.Connector.Failures.{Reads, at_dial, connect-Stops}
use config_srl.Connector.Laws.{Connected, connect-Connected}
use config_srl.Tests.Models.{json_of, texts}
use config_srl.Tests.Resources.{
  cr, nothing_observed, entry, gvk_entry-library, library, origins, server, server-IsSystemCache,
  server_decodes, server_starts, entry_for, empty_device,
}

create-get_cr_status_example :
    (w' : Option ResourceAction) × (d' : SystemDevice) × (create library origins server
        (srl_config cr)
        nothing_observed
        none
      ≡ (ok tt, w'))
    × (get_system_config library origins server (srl_config cr) w' ≡ (ok (some d'), w'))
    × (lookup "int-e1-30" d'.gvk ≡ some entry)
    × (get_cr_status library (srl_config cr) (some d')
        ≡ ok (record no_observation { exists = true; pending = true }))
unfolding cr_target
create-get_cr_status_example =
    create-get_cr_status library origins server (srl_config cr) nothing_observed
      server-IsSystemCache none refl refl (gvk_entry-library create_action) refl
      (server_decodes create_action) server_starts refl refl

abbrev write_of : ResourceAction → Write
write_of a = record {
  action = a;
  resource = srl_config cr;
  observed = nothing_observed;
  entry = entry_for a;
  text = json_of a;
}

can_write : (a : ResourceAction) → CanWrite library origins server server-IsSystemCache (write_of a)
unfolding cr_target
can_write a = record {
  kept = refl;
  of_target = refl;
  made = gvk_entry-library a;
  sent = refl;
  decoded = server_decodes a;
}

-- A resource is created, updated and deleted.
abbrev life : List Write
life = write_of create_action ∷ write_of update_action ∷ write_of delete_action ∷ []

perform_all-get_system_config_example :
    (w' : Option ResourceAction) × (d' : SystemDevice) × (perform_all library origins server life
        none
      ≡ (ok tt, w'))
    × ((mg : Managed)
        → cr_target library origins mg ≡ ok "ndd-system/leaf1"
        → get_system_config library origins server mg w' ≡ (ok (some d'), w'))
    × (d'.cache ≡ empty_device.cache)
    × ((name : String)
        → lookup name d'.gvk ≡ last_written library origins server name (lookup name []) life)
perform_all-get_system_config_example =
    perform_all-get_system_config library origins server server-IsSystemCache life none empty_device
      (can_write create_action, (can_write update_action, (can_write delete_action, tt)))
      server_starts

-- A client that is refused: the server is there, and reports an internal error.
abbrev refusing : GnmiClient
refusing = record {
  World = Bool;
  set = λ req w. (some (new "refused"), w);
  get = λ req w. (
    record {
      response = none;
      error = some (record { code = some (other_code "Internal"); text = "refused" });
    },
    w,
  );
  close = λ w. w;
}

get_no_response_example :
    (get_system_config texts origins refusing (srl_config cr) true ≡ (ok none, true))
    × (get_running_config texts origins refusing (srl_config cr) true ≡ (ok "", true))
unfolding cr_target
get_no_response_example =
    get_no_response texts origins refusing (srl_config cr) true refl (λ o. refl)

abbrev leaf1 : TargetObject
leaf1 = record { name = "leaf1"; namespace = "ndd-system" }

-- Services that know one target; the worker is reached at its service's address.
abbrev services : Services
services = record {
  World = Unit {0};
  track = λ mg w. (none, w);
  get_target = λ namespace name w. (ok leaf1, w);
  get_endpoint_address = λ service tag w. (ok "10.0.0.1:9999", w);
  get_target_tag = λ namespace name. name;
  create_gnmi_client = λ config w. (none, w);
  getenv = λ variable. if variable == "SERVICE_DISCOVERY" then "consul" else "";
  gnmi_server_port = "9999";
}

abbrev leaf1_client : ExternalDevice
leaf1_client = record { client = client_config "leaf1" "10.0.0.1:9999"; targets = "leaf1" ∷ [] }

leaf1_connects : connect services (srl_config cr) tt ≡ (ok leaf1_client, tt)
unfolding connect
leaf1_connects = refl

connect-Connected_example : Connected services (srl_config cr) tt leaf1_client tt
connect-Connected_example =
    connect-Connected services (srl_config cr) tt leaf1_client tt leaf1_connects

-- The same services, where the worker refuses the client.
abbrev refused_dial : Services
refused_dial = record services { create_gnmi_client = λ config w. (some (new "refused"), w) }

leaf1-Reads : Reads refused_dial cr tt (record { name = "leaf1" }) leaf1 tt
leaf1-Reads = record { after_track = tt; tracked = refl; has_reference = refl; got = refl }

connect-Stops_example :
    connect refused_dial (srl_config cr) tt ≡ (err (wrap (new "refused") cannot_create_client), tt)
unfolding find_address
connect-Stops_example =
    connect-Stops refused_dial cr tt (err (wrap (new "refused") cannot_create_client)) tt (
      at_dial (record { name = "leaf1" }) leaf1 "10.0.0.1:9999" (new "refused") tt tt tt leaf1-Reads
        refl refl)
