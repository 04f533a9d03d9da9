-- ===== src/External/Get.antt =====
-- How the two readers treat what the server answers.
use config_srl.Prelude.{◌≡◌, String, none, arith}
use config_srl.Prelude.Outcome.{ok}
use config_srl.Api.{Managed}
use config_srl.Libraries.{Codec}
use config_srl.External.Messages.{read_all}
use config_srl.External.{
  GnmiClient, GetReply, Origin, system_origin, config_origin, cr_target, read_reply, running_of,
  get_system_config, get_running_config,
}

module _ (lib : Codec) (origin_text : Origin → String) (client : GnmiClient) where
  open client use {World, get}

  read_reply-none :
      (reply : GetReply) → reply.response ≡ none → read_reply lib origin_text client reply ≡ ok none
  unfolding read_reply
  read_reply-none reply h = ground arith

  -- For a resource with a target reference: a read whose reply carries no response is answered
  -- with no data and no error, whatever error the client gave. The state is the one that the read
  -- left.
  pub get_no_response :
      (mg : Managed) (w : World) {target : String}
      → cr_target lib origin_text mg ≡ ok target
      → ((o : Origin) → (get (read_all origin_text target o) w).0.response ≡ none)
      → (get_system_config lib origin_text client mg w
          ≡ (ok none, (get (read_all origin_text target system_origin) w).1))
        × (get_running_config lib origin_text client mg w
            ≡ (ok "", (get (read_all origin_text target config_origin) w).1))
  unfolding get_system_config get_running_config
  get_no_response mg w {target} t h =
      let reply = λ (o : Origin). (get (read_all origin_text target o) w).0 in
      (
        rw (t, read_reply-none (reply system_origin) (h system_origin)),
        rw (t, read_reply-none (reply config_origin) (h config_origin), running_of),
      )
