-- ===== src/Target.antt =====
-- internal/target/srl/srl.go: the driver of a Nokia SR Linux target over gNMI. Contexts and
-- what is logged are left out, and with the log line of `Discover` its dereference of the target's
-- configuration; the driver object itself is in Target/Driver.
pub mod Discovery
pub mod Config
pub mod Driver
use config_srl.Prelude.{String, ◌==◌, List, [], ◌∷◌, Option, none, some, if◌then◌else◌}
use config_srl.Prelude.Outcome.{Outcome, ok, err, panic, new, wrap_err}
use config_srl.Prelude.Effect.{Eff, lift, ◌>>=◌, ◌>>◌}
use config_srl.Prelude.Calls.{call_wrapped}
use config_srl.Gnmi.{
  GnmiPath, no_path, TypedValue, get_string_val, Update, Notification, SetRequest, GetRequest,
  GetResponse,
}

-- The options of gapi.NewGetRequest that the driver passes.
pub data GetOption : Type 0 where
  path_option : String → GetOption
  data_type_option : String → GetOption
  encoding_option : String → GetOption

-- A connected gnmic target with the library calls of the driver. `get` and `set` give a response or
-- an error.
pub record GnmiTarget : Type 1 where
  pub World : Type 0
  pub Value : Type 0
  pub CapabilityResponse : Type 0
  pub SetResponse : Type 0
  pub new_get_request : List GetOption → Outcome GetRequest
  pub capabilities : World → Outcome CapabilityResponse × World
  pub get : GetRequest → World → Outcome GetResponse × World
  pub set : SetRequest → World → Outcome SetResponse × World
  -- `yparser.GetValue`
  pub get_value : TypedValue → Outcome (Option Value)
  -- `gutils.GnmiPathToXPath(p, true)`
  pub to_xpath : GnmiPath → String

-- targetv1.DiscoveryInfo, the fields that are set.
pub record DiscoveryInfo : Type 0 where
  pub vendor_type : String
  pub sw_version : String
  pub platform : String
  pub serial_number : String
  pub mac_address : String

abbrev pub create_get_request_error : String
create_get_request_error = "gnmi create get request error"

abbrev pub get_error : String
get_error = "gnmi get error "

abbrev pub sw_version_path : String
sw_version_path = "/platform/control[slot=A]/software-version"

abbrev pub chassis_path : String
chassis_path = "/platform/chassis"

-- `vendor` is targetv1.VendorTypeNokiaSRL.
module _ (t : GnmiTarget) (vendor : String) where
  open t use {
    World, Value, CapabilityResponse, SetResponse, new_get_request, get, set, get_value, to_xpath,
  }

  unfoldable pub gnmi_cap : Eff World CapabilityResponse
  gnmi_cap = t.capabilities

  -- The checks of `GetConfig` on the response: one notification with one update.
  unfoldable pub single_value : List Notification → Outcome (Option Value)
  single_value (n ∷ []) = elim n.update [
    | u ∷ rest ↦ elim rest [
      | [] ↦ get_value u.val
      | _ ∷ _ ↦ err (new "unexpected number of updates in GetResponse Notification")
    ]
    | [] ↦ err (new "unexpected number of updates in GetResponse Notification")
  ]
  single_value _ = err (new "unexpected number of Notifications in GetResponse")

  -- `rsp, err = t.target.Get(ctx, req)` with its error wrapped.
  get_wrapped : GetRequest → Eff World GetResponse
  unfolding call_wrapped
  get_wrapped req = call_wrapped get_error (get req)

  unfoldable pub gnmi_get : List GetOption → Eff World GetResponse
  unfolding get_wrapped
  gnmi_get opts = do
    req ← lift (wrap_err create_get_request_error (new_get_request opts))
    get_wrapped req

  unfoldable pub get_config : Eff World (Option Value)
  unfolding get_wrapped single_value
  get_config = do
    req ← lift (
        wrap_err create_get_request_error (
          new_get_request
            (path_option "" ∷ data_type_option "config" ∷ encoding_option "json_ietf" ∷ [])))
    rsp ← get_wrapped req
    lift (single_value rsp.notification)

  unfoldable pub gnmi_set : List Update → List GnmiPath → Eff World SetResponse
  gnmi_set u p = set (record { prefix = no_path; delete = p; replace = []; update = u })

  -- The `switch` on the path of one update. The first software version that is not empty stays.
  unfoldable pub discover_update : DiscoveryInfo → Update → DiscoveryInfo
  discover_update info u =
      let p = to_xpath u.path in
      let v = get_string_val u.val in
      if p == "platform/control/software-version"
      then (if info.sw_version == "" then record info { sw_version = v } else info)
      else if p == "platform/chassis/type"
      then record info { platform = v }
      else if p == "platform/chassis/serial-number"
      then record info { serial_number = v }
      else if p == "platform/chassis/hw-mac-address"
      then record info { mac_address = v }
      else info

  unfoldable pub discover_updates : DiscoveryInfo → List Update → DiscoveryInfo
  unfolding discover_update
  discover_updates info [] = info
  discover_updates info (u ∷ us) = discover_updates (discover_update info u) us

  unfoldable pub discover_notifications : DiscoveryInfo → List Notification → DiscoveryInfo
  unfolding discover_updates
  discover_notifications info [] = info
  discover_notifications info (n ∷ ns) = discover_notifications (discover_updates info n.update) ns

  abbrev pub no_details : DiscoveryInfo
  no_details = record {
    vendor_type = vendor;
    sw_version = "";
    platform = "";
    serial_number = "";
    mac_address = "";
  }

  unfoldable pub get_discovery_info : Eff World DiscoveryInfo
  unfolding discover_notifications
  get_discovery_info = do
    req ← lift (
        new_get_request (
          path_option sw_version_path
          ∷ path_option chassis_path
          ∷ encoding_option "ascii"
          ∷ data_type_option "state"
          ∷ []))
    resp ← get req
    lift (ok (discover_notifications no_details resp.notification))

  -- `Discover` logs what `getDiscoveryInfo` found.
  unfoldable pub discover : Eff World DiscoveryInfo
  unfolding get_discovery_info
  discover = do info ← get_discovery_info; lift (ok info)
