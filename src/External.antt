-- ===== src/External.antt =====
-- `externalDevice` of internal/controllers/srl/srlconfig_controller.go: the gNMI client of one
-- target. Loggers and contexts are left out.
pub mod Messages
pub mod Set
pub mod Get
pub mod History
pub mod Requests
pub mod Concurrent
pub mod InSync
pub mod Changed
pub mod Writes
pub mod Returns
pub mod Panics
pub mod Complete
use config_srl.Prelude.{String, Bool, true, false, Option, none, some, List, [], ◌∷◌, if◌then◌else◌}
use config_srl.Prelude.Outcome.{Outcome, ok, err, panic, Error, new, wrap, wrap_err, deref}
use config_srl.Prelude.Effect.{Eff, lift, ◌>>=◌, ◌>>◌}
use config_srl.Prelude.Calls.{check}
use config_srl.Gnmi.{GnmiPath, no_path, Update, Notification, SetRequest, GetRequest, GetResponse}
use config_srl.Api.{Managed, get_metadata, get_target_reference}
use config_srl.System.{ResourceAction, create_action, update_action, delete_action, SystemDevice}
use config_srl.Libraries.{Codec}
use config_srl.Gvk.{ExternalObservation, get_gvk_update, cannot_marshal}

-- The code of a gRPC status.
pub data Code : Type 0 where
  unavailable : Code
  other_code : String → Code

-- An error of the client; `code` is set if `status.FromError` finds a gRPC status in it.
pub record ClientError : Type 0 where
  pub code : Option Code
  pub text : String

-- The two results of `client.Get`.
pub record GetReply : Type 0 where
  pub response : Option GetResponse
  pub error : Option ClientError

-- target.Target of gnmic, over the state of the servers that it reaches.
pub record GnmiClient : Type 1 where
  pub World : Type 0
  pub set : SetRequest → World → Option Error × World
  pub get : GetRequest → World → GetReply × World
  pub close : World → World

-- The origins of github.com/yndd/cache/pkg/origin.
pub data Origin : Type 0 where
  system_origin config_origin : Origin

-- `rsp.GetNotification()`, of a nil response too.
abbrev pub notifications : Option GetResponse → List Notification
notifications none = []
notifications (some r) = r.notification

-- `er, ok := status.FromError(err); ok && er.Code() == codes.Unavailable`
abbrev pub is_unavailable : Option ClientError → Bool
is_unavailable none = false
is_unavailable (some e) = elim e.code [ some unavailable ↦ true | _ ↦ false ]

abbrev pub cannot_create : String
cannot_create = "cannot create Device"

abbrev pub cannot_update : String
cannot_update = "cannot update Device"

abbrev pub cannot_delete : String
cannot_delete = "cannot delete Device"

module _ (lib : Codec) (origin_text : Origin → String) where
  open lib use {Value, get_value, json_marshal, get_namespaced_name}

  -- `crTarget`; a resource without a target reference panics.
  unfoldable pub cr_target : Managed → Outcome String
  cr_target mg = elim (get_target_reference mg) [
    | none ↦ panic
    | some reference ↦ ok (get_namespaced_name (get_metadata mg).namespace reference.name)
  ]

  abbrev pub prefix_of : String → Origin → GnmiPath
  prefix_of target o = record { target = target; origin = origin_text o; elem = [] }

  abbrev pub replace_request : String → List Update → SetRequest
  replace_request target updates = record {
    prefix = prefix_of target system_origin;
    delete = [];
    replace = updates;
    update = [];
  }

  abbrev pub get_request : String → Origin → GetRequest
  get_request target o = record {
    prefix = prefix_of target o;
    path = no_path ∷ [];
    encoding = "JSON";
  }

  module _ (client : GnmiClient) where
    open client use {World, set, get}

    -- `_, err = e.client.Set(ctx, req)` and the wrapped error.
    unfoldable pub set_or_wrap : String → SetRequest → Eff World (Unit {0})
    unfolding check
    set_or_wrap message req = check message (set req)

    unfoldable pub create : Managed → ExternalObservation → Eff World (Unit {0})
    unfolding set_or_wrap
    create mg obs = do
      updates ← lift (wrap_err cannot_create (get_gvk_update lib mg obs create_action))
      target ← lift (cr_target mg)
      set_or_wrap cannot_create (replace_request target updates)

    -- `Update` and `Delete` wrap a failure of `getGvkUpate` like `Create` does.
    unfoldable pub update : Managed → ExternalObservation → Eff World (Unit {0})
    unfolding set_or_wrap
    update mg obs = do
      updates ← lift (wrap_err cannot_create (get_gvk_update lib mg obs update_action))
      target ← lift (cr_target mg)
      set_or_wrap cannot_update (replace_request target updates)

    unfoldable pub delete : Managed → ExternalObservation → Eff World (Unit {0})
    unfolding set_or_wrap
    delete mg obs = do
      updates ← lift (wrap_err cannot_create (get_gvk_update lib mg obs delete_action))
      target ← lift (cr_target mg)
      set_or_wrap cannot_delete (replace_request target updates)

    -- The value of the first update of the first notification. `none` is an early return with no
    -- data; without an update the variable keeps its nil value.
    first_value : List Notification → Outcome (Option (Option Value))
    first_value [] = ok none
    first_value (n ∷ _) = elim n.update [
      | [] ↦ ok (some none)
      | u ∷ _ ↦ elim (wrap_err cannot_marshal (get_value u.val)) [
        | ok none ↦ ok none
        | ok (some v) ↦ ok (some (some v))
        | err e ↦ err e
        | panic ↦ panic
      ]
    ]

    -- From the reply to that value: an error that is no Unavailable status is passed over.
    unfoldable pub read_reply : GetReply → Outcome (Option (Option Value))
    unfolding first_value
    read_reply reply =
        if is_unavailable reply.error then ok none else first_value (notifications reply.response)

    get_reply : GetRequest → Eff World GetReply
    get_reply req w = let (reply, w') = get req w in (ok reply, w')

    -- `json.Marshal` of the value, or the nil slice.
    running_of : Option (Option Value) → Outcome String
    running_of none = ok ""
    running_of (some v) = json_marshal v

    unfoldable pub get_running_config : Managed → Eff World String
    unfolding get_reply running_of
    get_running_config mg = do
      target ← lift (cr_target mg)
      reply ← get_reply (get_request target config_origin)
      value ← lift (read_reply reply)
      lift (running_of value)

    -- `goStruct.(*ygotnddp.Device)`
    expect_system : Option SystemDevice → Outcome (Option SystemDevice)
    expect_system none = err (new "wrong object nddp")
    expect_system (some d) = ok (some d)

    system_of : Option (Option Value) → Eff World (Option SystemDevice)
    unfolding expect_system
    system_of none = lift (ok none)
    system_of (some v) = do
      text ← lift (json_marshal v)
      go_struct ← lift (lib.new_system_struct text)
      lift (expect_system go_struct)

    unfoldable pub get_system_config : Managed → Eff World (Option SystemDevice)
    unfolding get_reply system_of
    get_system_config mg = do
      target ← lift (cr_target mg)
      reply ← get_reply (get_request target system_origin)
      value ← lift (read_reply reply)
      system_of value

    -- `Close` of the external client.
    unfoldable pub close_client : World → World
    close_client w = client.close w
