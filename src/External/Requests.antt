-- ===== src/External/Requests.antt =====
-- What the calls of the client keep, by the requests that they send: one rule for each way to build
-- an operation, and the operations.
use config_srl.Prelude.{String, Option, none, some, List}
use config_srl.Prelude.Outcome.{Outcome, ok, err, panic, Error, wrap, wrap_err}
use config_srl.Prelude.Effect.{Eff, lift, ◌>>=◌}
use config_srl.Prelude.Calls.{check}
use config_srl.Gnmi.{Update, SetRequest}
use config_srl.Libraries.{Codec}
use config_srl.Api.{Managed}
use config_srl.System.{ResourceAction, create_action, update_action, delete_action}
use config_srl.Gvk.{ExternalObservation, get_gvk_update}
use config_srl.External.{
  Origin, system_origin, config_origin, GnmiClient, GetReply, create, update, delete,
  get_running_config, get_system_config, set_or_wrap, get_reply, system_of, running_of, read_reply,
  cr_target, replace_request, get_request, expect_system, cannot_create, cannot_update,
  cannot_delete,
}
use config_srl.External.History.{perform}

-- `P` holds after the call if it holds before it, whatever the call returns.
pub record Keeps {W A : Type 0} (P : W → Type 0) (m : Eff W A) : Type 0 where
  pub at : (w : W) → P w → P (m w).1

module _ {W : Type 0} {P : W → Type 0} where
  Keeps-lift : {A : Type 0} (r : Outcome A) → Keeps P (lift r)
  Keeps-lift r = record { at = λ w h. h }

  Keeps-bind :
      {A B : Type 0} (m : Eff W A) (f : A → Eff W B)
      → Keeps P m
      → ((a : A) → Keeps P (f a))
      → Keeps P (m >>= f)
  Keeps-bind {A} m f hm hf = record { at = λ w h. step (m w).1 (m w).0 (hm.at w h) }
    where
      step : (w : W) (r : Outcome A) → P w → P (◌>>=◌ (λ _. (r, w)) f w).1
      step w (ok a) h = (hf a).at w h
      step w (err e) h = h
      step w panic h = h

  -- The rest runs on a result of a step that sends nothing.
  Keeps-lift_bind :
      {A B : Type 0} (r : Outcome A) (f : A → Eff W B)
      → ((a : A) → Keeps P (f a))
      → Keeps P (lift r >>= f)
  Keeps-lift_bind r f hf = Keeps-bind (lift r) f (Keeps-lift r) hf

module _ (lib : Codec) (origin_text : Origin → String) (client : GnmiClient)
    {P : client.World → Type 0} where
  open client use {World, set, get}

  set_or_wrap-Keeps :
      (message : String) (req : SetRequest)
      → ((w : World) → P w → P (set req w).1)
      → Keeps P (set_or_wrap lib origin_text client message req)
  unfolding set_or_wrap check
  set_or_wrap-Keeps message req h = record {
    at = λ w p. by_error (set req w).0 (set req w).1 (h w p);
  }
    where
      by_error :
          (e : Option Error) (w : World)
          → P w
          → let done : Outcome (Unit {0}) × World = elim e [
            | none ↦ (ok tt, w)
            | some cause ↦ (err (wrap cause message), w)
          ] in
            P done.1
      by_error none w p = p
      by_error (some cause) w p = p

  module _
      (replaces : (target : String) (updates : List Update) (w : World)
        → P w
        → P (set (replace_request lib origin_text target updates) w).1) where
    write-Keeps :
        (r : Outcome (List Update)) (message : String) (mg : Managed)
        → Keeps P (
            lift r >>= λ updates.
            (lift (cr_target lib origin_text mg) >>= λ target.
            set_or_wrap lib origin_text client message
              (replace_request lib origin_text target updates)))
    write-Keeps r message mg = Keeps-lift_bind r _ λ updates.
        Keeps-lift_bind (cr_target lib origin_text mg) _
          λ target. set_or_wrap-Keeps message _ (replaces target updates)

    pub perform-Keeps :
        (action : ResourceAction) (mg : Managed) (obs : ExternalObservation)
        → Keeps P (perform lib origin_text client action mg obs)
    unfolding perform create update delete
    perform-Keeps create_action mg obs =
        write-Keeps (wrap_err cannot_create (get_gvk_update lib mg obs create_action)) cannot_create
          mg
    perform-Keeps update_action mg obs =
        write-Keeps (wrap_err cannot_create (get_gvk_update lib mg obs update_action)) cannot_update
          mg
    perform-Keeps delete_action mg obs =
        write-Keeps (wrap_err cannot_create (get_gvk_update lib mg obs delete_action)) cannot_delete
          mg

  module _
      (reads : (target : String) (o : Origin) (w : World)
        → P w
        → P (get (get_request lib origin_text target o) w).1) where
    read-Keeps :
        {A : Type 0} (mg : Managed) (o : Origin) (next : GetReply → Eff World A)
        → ((reply : GetReply) → Keeps P (next reply))
        → Keeps P (
            lift (cr_target lib origin_text mg) >>= λ target.
            (get_reply lib origin_text client (get_request lib origin_text target o) >>= next))
    unfolding get_reply
    read-Keeps mg o next h = Keeps-lift_bind (cr_target lib origin_text mg) _ λ target.
        Keeps-bind (get_reply lib origin_text client (get_request lib origin_text target o)) next
          (record { at = reads target o }) h

    pub get_running_config-Keeps :
        (mg : Managed) → Keeps P (get_running_config lib origin_text client mg)
    unfolding get_running_config
    get_running_config-Keeps mg = read-Keeps mg config_origin _ λ reply.
        Keeps-lift_bind (read_reply lib origin_text client reply) _
          λ value. Keeps-lift (running_of lib origin_text client value)

    system_of-Keeps :
        (value : Option (Option lib.Value)) → Keeps P (system_of lib origin_text client value)
    unfolding system_of
    system_of-Keeps none = Keeps-lift (ok none)
    system_of-Keeps (some v) = Keeps-lift_bind (lib.json_marshal v) _ λ text.
        Keeps-lift_bind (lib.new_system_struct text) _
          λ go_struct. Keeps-lift (expect_system lib origin_text client go_struct)

    pub get_system_config-Keeps :
        (mg : Managed) → Keeps P (get_system_config lib origin_text client mg)
    unfolding get_system_config
    get_system_config-Keeps mg = read-Keeps mg system_origin _ λ reply.
        Keeps-lift_bind (read_reply lib origin_text client reply) _ λ value. system_of-Keeps value
