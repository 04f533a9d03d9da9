-- ===== src/Process/Plan.antt =====
-- The calls that the bodies of the two commands make, in order, with the messages of their errors.
use config_srl.Prelude.{String, ◌≡◌, refl, Option, none, some, List, [], ◌∷◌, ◌<>◌}
use config_srl.Process.{
  Flags, Names, srl_config_kind, Call, new_client, new_cache, new_registrator,
  start_target_controller, new_reconciler_controller, start_reconciler_controller, new_manager,
  complete_controller, complete_webhook, add_healthz_check, add_readyz_check, start_manager,
  Environment, run_manager,
}
use config_srl.Process.Setup.{srl_controller, target_controller}
use config_srl.Process.Worker.{
  worker_scheme, registrator_options, worker_manager, target_options, worker_target_controller,
  worker_body,
}
use config_srl.Process.Reconciler.{
  reconciler_scheme, reconciler_manager, srl_options, reconciler_body,
}
use config_srl.Process.Trace.{logged}
use config_srl.Process.Follows.{Follows, Follows-done, Follows-call, Follows-call_or}

abbrev pub Plan : Type 0
Plan = List (Call (Unit {0}))

-- The calls that both commands end with.
abbrev manager_plan : Plan
manager_plan = add_healthz_check tt "health" ∷ add_readyz_check tt "check" ∷ start_manager tt ∷ []

abbrev pub worker_plan : Names → Flags → Plan
worker_plan names f =
    new_registrator (registrator_options worker_scheme f)
    ∷ new_client worker_scheme
    ∷ new_cache
    ∷ start_target_controller (worker_target_controller names tt tt tt)
    ∷ new_manager (worker_manager f)
    ∷ complete_controller tt
        (target_controller names (target_options f (worker_target_controller names tt tt tt)))
    ∷ manager_plan

abbrev pub reconciler_plan : Names → Flags → Plan
reconciler_plan names f =
    new_registrator (registrator_options reconciler_scheme f)
    ∷ new_reconciler_controller (":" <> names.gnmi_server_port) tt
    ∷ start_reconciler_controller tt
    ∷ new_manager (reconciler_manager f)
    ∷ complete_controller tt (srl_controller names (srl_options f tt))
    ∷ complete_webhook tt srl_config_kind
    ∷ manager_plan

-- The messages that the errors of the manager's calls get.
abbrev manager_message : Call (Unit {0}) → Option String
manager_message (add_healthz_check h n) = some "unable to set up health check"
manager_message (add_readyz_check h n) = some "unable to set up ready check"
manager_message (start_manager h) = some "problem running manager"
manager_message _ = none

abbrev pub worker_message : Call (Unit {0}) → Option String
worker_message (new_registrator o) = some "Cannot create registrator"
worker_message (new_client scheme) = some "Cannot create client"
worker_message (new_manager o) = some "Cannot create manager"
worker_message (complete_controller h c) = some "Cannot add target to manager"
worker_message c = manager_message c

abbrev pub reconciler_message : Call (Unit {0}) → Option String
reconciler_message (new_registrator o) = some "Cannot create registrator"
reconciler_message (new_reconciler_controller a h) = some "Cannot create reconciler controller"
reconciler_message (start_reconciler_controller h) = some "Cannot start reconciler controller"
reconciler_message (new_manager o) = some "Cannot add srlconfig manager"
reconciler_message (complete_controller h c) = some "Cannot add ndd controllers to manager"
reconciler_message (complete_webhook h k) = some "unable to create webhook for srl config"
reconciler_message c = manager_message c

module _ (env : Environment) (message : Call (Unit {0}) → Option String) where
  run_manager-Follows :
      message (add_healthz_check tt "health") ≡ some "unable to set up health check"
      → message (add_readyz_check tt "check") ≡ some "unable to set up ready check"
      → message (start_manager tt) ≡ some "problem running manager"
      → (mgr : env.Handle) → Follows env message manager_plan (run_manager (logged env) mgr)
  unfolding run_manager
  run_manager-Follows healthz readyz started mgr = Follows-call_or env message _ _ _ _ healthz λ _.
      Follows-call_or env message _ _ _ _ readyz
        λ _. Follows-call_or env message _ _ _ _ started λ _. Follows-done env message tt

module _ (names : Names) (env : Environment) where
  pub worker_body-Follows :
      (f : Flags)
      → Follows env worker_message (worker_plan names f) (worker_body names (logged env) f)
  unfolding worker_body worker_target_controller target_controller
  worker_body-Follows f = Follows-call_or env worker_message _ _ _ _ refl λ reg.
      Follows-call_or env worker_message _ _ _ _ refl λ cl.
        Follows-call env worker_message _ _ _ refl λ cache.
          Follows-call env worker_message _ _ _ refl λ started.
            Follows-call_or env worker_message _ _ _ _ refl λ mgr.
              Follows-call_or env worker_message _ _ _ _ refl
                λ completed. run_manager-Follows env worker_message refl refl refl mgr

  pub reconciler_body-Follows :
      (f : Flags)
      → Follows env reconciler_message
          (reconciler_plan names f)
          (reconciler_body names (logged env) f)
  unfolding reconciler_body srl_controller
  reconciler_body-Follows f = Follows-call_or env reconciler_message _ _ _ _ refl λ reg.
      Follows-call_or env reconciler_message _ _ _ _ refl λ rc.
        Follows-call_or env reconciler_message _ _ _ _ refl λ started.
          Follows-call_or env reconciler_message _ _ _ _ refl λ mgr.
            Follows-call_or env reconciler_message _ _ _ _ refl λ completed.
              Follows-call_or env reconciler_message _ _ _ _ refl
                λ hooked. run_manager-Follows env reconciler_message refl refl refl mgr
