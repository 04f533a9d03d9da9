-- ===== src/External/Panics.antt =====
-- Which calls of the external client panic: those for a resource that names no target.
use config_srl.Prelude.{◌≡◌, ◌↔◌, refl, String, Option, none, some, List, arith}
use config_srl.Prelude.Outcome.{Outcome, ok, err, panic, wrap_err}
use config_srl.Prelude.Effect.{Eff, lift, ◌>>=◌}
use config_srl.Prelude.Calls.{check}
use config_srl.Prelude.Returns.{Returns, ok-Returns, err-Returns}
use config_srl.Gnmi.{Update, SetRequest}
use config_srl.Api.{Managed, get_target_reference}
use config_srl.System.{ResourceAction, create_action, update_action, delete_action, SystemDevice}
use config_srl.Libraries.{Codec}
use config_srl.Gvk.{ExternalObservation, get_gvk_update}
use config_srl.External.{
  Origin, system_origin, config_origin, get_request, get_reply, running_of, expect_system,
  system_of, GnmiClient, cr_target, create, update, delete, set_or_wrap, get_running_config,
  get_system_config, read_reply, replace_request, cannot_create, cannot_update, cannot_delete,
}
use config_srl.External.History.{perform}
use config_srl.External.Returns.{CodecReturns, get_gvk_update-Returns, read_reply-Returns}

module _ (lib : Codec) (origin_text : Origin → String) (client : GnmiClient) where
  open client use {World}

  set_or_wrap-Returns :
      (message : String) (req : SetRequest) (w : World)
      → Returns (set_or_wrap lib origin_text client message req w).0
  unfolding set_or_wrap check
  set_or_wrap-Returns message req w h = ground arith

  -- The writes, from the updates that they send and the target.
  abbrev pub write : String → Outcome (List Update) → Outcome String → Eff World (Unit {0})
  write message updates target = lift (wrap_err cannot_create updates) >>= λ us.
      (lift target >>= λ t.
      set_or_wrap lib origin_text client message (replace_request lib origin_text t us))

  write-panic :
      (message : String) (updates : Outcome (List Update)) (target : Outcome String) (w : World)
      → Returns updates
      → ((write message updates target w).0 ≡ panic
          ↔ ((target ≡ panic) × ((us : List Update) × (updates ≡ ok us))))
  write-panic message (ok us) (ok t) w r = (
    λ h. absurd (set_or_wrap-Returns message (replace_request lib origin_text t us) w h),
    λ h. cc h.0,
  )
  write-panic message (ok us) (err e) w r = (λ h. cc h, λ h. cc h.0)
  write-panic message (ok us) panic w r = (λ h. (refl, (us, refl)), λ h. refl)
  write-panic message (err e) target w r = (λ h. cc h, λ h. cc h.1.1)
  write-panic message panic target w r = absurd (r refl)

  module _ (R : CodecReturns lib) where
    perform-panic :
        (action : ResourceAction) (mg : Managed) (obs : ExternalObservation) (w : World)
        → (perform lib origin_text client action mg obs w).0 ≡ panic
          ↔ (cr_target lib origin_text mg ≡ panic)
            × ((us : List Update) × (get_gvk_update lib mg obs action ≡ ok us))
    unfolding perform create update delete
    perform-panic create_action mg obs w =
        write-panic cannot_create (get_gvk_update lib mg obs create_action)
          (cr_target lib origin_text mg) w (get_gvk_update-Returns lib R mg obs create_action)
    perform-panic update_action mg obs w =
        write-panic cannot_update (get_gvk_update lib mg obs update_action)
          (cr_target lib origin_text mg) w (get_gvk_update-Returns lib R mg obs update_action)
    perform-panic delete_action mg obs w =
        write-panic cannot_delete (get_gvk_update lib mg obs delete_action)
          (cr_target lib origin_text mg) w (get_gvk_update-Returns lib R mg obs delete_action)

    lift_bind-Returns :
        {A B : Type 0} (r : Outcome A) (f : A → Eff World B) (w : World)
        → Returns r
        → ((a : A) → Returns (f a w).0)
        → Returns ((lift r >>= f) w).0
    lift_bind-Returns (ok a) f w r s = s a
    lift_bind-Returns (err e) f w r s = err-Returns e
    lift_bind-Returns panic f w r s = absurd (r refl)

    lift_bind-panic :
        {A B : Type 0} (r : Outcome A) (f : A → Eff World B) (w : World)
        → ((a : A) → Returns (f a w).0)
        → ((lift r >>= f) w).0 ≡ panic ↔ r ≡ panic
    lift_bind-panic (ok a) f w s = (λ h. absurd (s a h), λ h. cc h)
    lift_bind-panic (err e) f w s = (λ h. cc h, λ h. cc h)
    lift_bind-panic panic f w s = (λ h. refl, λ h. refl)

    running_of-Returns :
        (v : Option (Option lib.Value)) → Returns (running_of lib origin_text client v)
    unfolding running_of
    running_of-Returns none = ok-Returns ""
    running_of-Returns (some v) = R.json_marshal v

    expect_system-Returns :
        (d : Option SystemDevice) → Returns (expect_system lib origin_text client d)
    unfolding expect_system
    expect_system-Returns none = err-Returns _
    expect_system-Returns (some d) = ok-Returns _

    system_of-Returns :
        (v : Option (Option lib.Value)) (w : World)
        → Returns (system_of lib origin_text client v w).0
    unfolding system_of
    system_of-Returns none w = ok-Returns none
    system_of-Returns (some v) w =
        lift_bind-Returns (lib.json_marshal v)
          (λ text.
            (lift (lib.new_system_struct text) >>= λ d.
            lift (expect_system lib origin_text client d)))
          w (R.json_marshal v)
          (λ text.
            lift_bind-Returns (lib.new_system_struct text)
              (λ d. lift (expect_system lib origin_text client d)) w (R.new_system_struct text)
              expect_system-Returns)

    get_running_config-panic :
        (mg : Managed) (w : World)
        → (get_running_config lib origin_text client mg w).0 ≡ panic
          ↔ cr_target lib origin_text mg ≡ panic
    unfolding get_running_config
    get_running_config-panic mg w =
        lift_bind-panic (cr_target lib origin_text mg)
          (λ t.
            (get_reply lib origin_text client (get_request lib origin_text t config_origin)
              >>= λ reply.
                  (lift (read_reply lib origin_text client reply) >>= λ v.
                  lift (running_of lib origin_text client v))))
          w
          (λ t.
            let (reply, w') = client.get (get_request lib origin_text t config_origin) w in
            lift_bind-Returns (read_reply lib origin_text client reply)
              (λ v. lift (running_of lib origin_text client v)) w'
              (read_reply-Returns lib R origin_text client reply) running_of-Returns)

    get_system_config-panic :
        (mg : Managed) (w : World)
        → (get_system_config lib origin_text client mg w).0 ≡ panic
          ↔ cr_target lib origin_text mg ≡ panic
    unfolding get_system_config
    get_system_config-panic mg w =
        lift_bind-panic (cr_target lib origin_text mg)
          (λ t.
            (get_reply lib origin_text client (get_request lib origin_text t system_origin)
              >>= λ reply.
                  (lift (read_reply lib origin_text client reply)
                    >>= system_of lib origin_text client)))
          w
          (λ t.
            let (reply, w') = client.get (get_request lib origin_text t system_origin) w in
            lift_bind-Returns (read_reply lib origin_text client reply)
              (system_of lib origin_text client) w'
              (read_reply-Returns lib R origin_text client reply) (λ v. system_of-Returns v w'))

  cr_target-panic :
      (mg : Managed) → cr_target lib origin_text mg ≡ panic ↔ get_target_reference mg ≡ none
  unfolding cr_target
  cr_target-panic mg = (λ h. ground arith, λ h. rw (h, cr_target) refl)

  -- If no call of the codec panics: a read of either cache panics exactly if its resource names no
  -- target, and a creation, an update or a deletion exactly if this is so and the update that it
  -- would send can be made. In all other cases the call returns, whatever the servers answer.
  pub calls-panic :
      CodecReturns lib
      → (mg : Managed) (w : World)
      → ((get_running_config lib origin_text client mg w).0 ≡ panic
          ↔ get_target_reference mg ≡ none)
        × ((get_system_config lib origin_text client mg w).0 ≡ panic
            ↔ get_target_reference mg ≡ none)
        × ((action : ResourceAction) (obs : ExternalObservation)
            → (perform lib origin_text client action mg obs w).0 ≡ panic
              ↔ (get_target_reference mg ≡ none)
                × ((us : List Update) × (get_gvk_update lib mg obs action ≡ ok us)))
  calls-panic R mg w =
      let (named, unnamed) = cr_target-panic mg in
      let (running, running') = get_running_config-panic R mg w in
      let (system, system') = get_system_config-panic R mg w in
      (
        (λ h. named (running h), λ h. running' (unnamed h)),
        (λ h. named (system h), λ h. system' (unnamed h)),
        λ action obs.
            let (write, write') = perform-panic R action mg obs w in
            (λ h. (named (write h).0, (write h).1), λ h. write' (unnamed h.0, h.1)),
      )
