-- ===== src/External/Writes.antt =====
-- The outcome of a write, and what it sends.
use config_srl.Prelude.{
  ◌≡◌, ◌↔◌, ◌⊎◌, inl, inr, refl, sym, ◌∙◌, ◌≢◌, ap, String, Option, none, some, List, arith,
}
use config_srl.Prelude.Outcome.{Outcome, ok, err, panic, Error, wrap}
use config_srl.Prelude.Calls.{check-none, check-some, check-eq-ok, check-eq-err}
use config_srl.Gnmi.{Update}
use config_srl.Api.{Managed}
use config_srl.System.{ResourceAction, create_action, update_action, delete_action}
use config_srl.Libraries.{Codec}
use config_srl.Gvk.{ExternalObservation, get_gvk_update}
use config_srl.External.{GnmiClient, Origin, cr_target, create, update, delete, set_or_wrap}
use config_srl.External.Messages.{system_replace}
use config_srl.External.History.{perform}
use config_srl.External.Panics.{write}

-- The message of a refused write.
abbrev pub message_of : ResourceAction → String
message_of create_action = "cannot create Device"
message_of update_action = "cannot update Device"
message_of delete_action = "cannot delete Device"

module _ (lib : Codec) (origin_text : Origin → String) (client : GnmiClient) where
  open client use {World}

  module _ (message : String) (w w' : World) where
    -- The update that is sent, and the target that it goes to.
    abbrev Sent : Outcome (List Update) → Outcome String → Option Error → Type 0
    Sent updates target answer =
        (us : List Update) × (t : String) × (updates ≡ ok us)
        × (target ≡ ok t)
        × (client.set (system_replace origin_text t us) w ≡ (answer, w'))

    write-none :
        (updates : Outcome (List Update)) (target : Outcome String)
        → Sent updates target none
        → write lib origin_text client message updates target w ≡ (ok tt, w')
    unfolding set_or_wrap
    write-none updates target (us, t, u, v, h) =
        rw (u, v) (check-none message (client.set (system_replace origin_text t us)) w h)

    write-some :
        (updates : Outcome (List Update)) (target : Outcome String) (cause : Error)
        → Sent updates target (some cause)
        → write lib origin_text client message updates target w ≡ (err (wrap cause message), w')
    unfolding set_or_wrap
    write-some updates target cause (us, t, u, v, h) =
        rw (u, v) (check-some message (client.set (system_replace origin_text t us)) w h)

    write-eq-ok :
        (updates : Outcome (List Update)) (target : Outcome String)
        → write lib origin_text client message updates target w ≡ (ok tt, w')
        → Sent updates target none
    unfolding set_or_wrap
    write-eq-ok (ok us) (ok t) h =
        (us, t, refl, refl, check-eq-ok message (client.set (system_replace origin_text t us)) w h)
    write-eq-ok (ok us) (err e) h = cc (ap (λ r. r.0) h)
    write-eq-ok (ok us) panic h = cc (ap (λ r. r.0) h)
    write-eq-ok (err e) target h = cc (ap (λ r. r.0) h)
    write-eq-ok panic target h = cc (ap (λ r. r.0) h)

    -- Nothing is sent, or the server refuses.
    abbrev Failed : Outcome (List Update) → Outcome String → Error → Type 0
    Failed updates target e =
        ((cause : Error) × (updates ≡ err cause)
          × (e ≡ wrap cause "cannot create Device")
          × (w' ≡ w))
        ⊎ ((cause : Error) × Sent updates target (some cause) × (e ≡ wrap cause message))

    write-eq-err :
        (updates : Outcome (List Update)) (target : Outcome String) (e : Error)
        → ((x : Error) → target ≢ err x)
        → write lib origin_text client message updates target w ≡ (err e, w')
        → Failed updates target e
    unfolding set_or_wrap
    write-eq-err (ok us) (ok t) e total h =
        let (cause, sent, same) =
          check-eq-err message (client.set (system_replace origin_text t us)) w h in
        inr (cause, (us, t, refl, refl, sent), same)
    write-eq-err (ok us) (err x) e total h = absurd (total x refl)
    write-eq-err (ok us) panic e total h = cc (ap (λ r. r.0) h)
    write-eq-err (err cause) target e total h = inl (cause, refl, ground arith, ground arith)
    write-eq-err panic target e total h = cc (ap (λ r. r.0) h)

    write-Failed :
        (updates : Outcome (List Update)) (target : Outcome String) (e : Error)
        → Failed updates target e
        → write lib origin_text client message updates target w ≡ (err e, w')
    write-Failed updates target e (inl (cause, u, same, still)) = rw (u, same, still) refl
    write-Failed updates target e (inr (cause, sent, same)) =
        rw same (write-some updates target cause sent)

  cr_target-total : (mg : Managed) (x : Error) → cr_target lib origin_text mg ≢ err x
  unfolding cr_target
  cr_target-total mg x h = ground arith

  perform-eq-write :
      (action : ResourceAction) (mg : Managed) (obs : ExternalObservation) (w : World)
      → perform lib origin_text client action mg obs w
        ≡ write lib origin_text client
            (message_of action)
            (get_gvk_update lib mg obs action)
            (cr_target lib origin_text mg)
            w
  unfolding perform create update delete
  perform-eq-write create_action mg obs w = refl
  perform-eq-write update_action mg obs w = refl
  perform-eq-write delete_action mg obs w = refl

  -- A creation, an update or a deletion succeeds exactly if its update can be made, its resource
  -- names a target, and the server accepts the request that replaces this update, and does nothing
  -- else, in the system cache of the target. It fails exactly if its update cannot be made, when
  -- nothing is sent and the error says "cannot create Device" whatever the operation is, or if the
  -- server refuses the same request, when the error has the message of the operation. In each case
  -- the state is the one that the server left, and the cause is wrapped in the error.
  pub perform_iff :
      (action : ResourceAction) (mg : Managed) (obs : ExternalObservation) (w w' : World)
      → ((perform lib origin_text client action mg obs w ≡ (ok tt, w')) ↔ (
          (us : List Update) × (t : String) × (get_gvk_update lib mg obs action ≡ ok us)
          × (cr_target lib origin_text mg ≡ ok t)
          × (client.set (system_replace origin_text t us) w ≡ (none, w'))))
        × ((e : Error)
            → (perform lib origin_text client action mg obs w ≡ (err e, w')) ↔ (
                ((cause : Error) × (get_gvk_update lib mg obs action ≡ err cause)
                  × (e ≡ wrap cause "cannot create Device")
                  × (w' ≡ w))
                ⊎ ((cause : Error) × ((us : List Update) × (t : String) × (get_gvk_update lib mg obs
                          action
                        ≡ ok us)
                      × (cr_target lib origin_text mg ≡ ok t)
                      × (client.set (system_replace origin_text t us) w ≡ (some cause, w')))
                    × (e ≡ wrap cause (message_of action)))))
  perform_iff action mg obs w w' =
      let message = message_of action in
      let us = get_gvk_update lib mg obs action in
      let t = cr_target lib origin_text mg in
      let same = perform-eq-write action mg obs w in
      (
        (
          λ h. write-eq-ok message w w' us t (sym same ∙ h),
          λ s. same ∙ write-none message w w' us t s,
        ),
        λ e. (
          λ h. write-eq-err message w w' us t e (cr_target-total mg) (sym same ∙ h),
          λ f. same ∙ write-Failed message w w' us t e f,
        ),
      )
