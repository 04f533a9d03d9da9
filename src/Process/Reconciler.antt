-- ===== src/Process/Reconciler.antt =====
-- cmd/reconcilercmd/reconciler: start.go and root.go.
use config_srl.Prelude.{String, ◌<>◌, Bool, false, some, List, [], ◌∷◌}
use config_srl.Prelude.Effect.{Eff, ◌>>=◌, ◌>>◌}
use config_srl.Process.{
  Flags, Names, ApiGroup, kubernetes_group, target_group, srl_group, ManagerOptions,
  new_registrator, new_reconciler_controller, start_reconciler_controller, new_manager,
  complete_controller, Environment, leader_election_id, call_or, with_logger, with_profiler,
  run_manager,
}
use config_srl.Process.Setup.{SrlOptions, srl_controller, setup_webhook_with_manager}
use config_srl.Process.Worker.{registrator_options}

-- The defaults of the flags of the root command: `debug` and `profiler`.
abbrev reconciler_root_flags : Bool × Bool
reconciler_root_flags = (false, false)

-- The defaults of the flags; there is no flag for `autopilot`, which keeps its zero value.
pub reconciler_flags : (String → String) → Flags
reconciler_flags getenv = record {
  debug = reconciler_root_flags.0;
  profiler = reconciler_root_flags.1;
  metrics_addr = ":8080";
  probe_addr = ":8081";
  enable_leader_election = false;
  concurrency = 1;
  poll_interval = 600;
  namespace = getenv "POD_NAMESPACE";
  podname = getenv "POD_NAME";
  grpc_server_address = "";
  grpc_query_address = "";
  autopilot = false;
  service_discovery = getenv "SERVICE_DISCOVERY";
  service_discovery_namespace = getenv "SERVICE_DISCOVERY_NAMESPACE";
  service_discovery_dc_name = getenv "SERVICE_DISCOVERY_DCNAME";
}

abbrev pub reconciler_scheme : List ApiGroup
reconciler_scheme = kubernetes_group ∷ srl_group ∷ target_group ∷ []

abbrev pub reconciler_manager : Flags → ManagerOptions
reconciler_manager f = record {
  scheme = reconciler_scheme;
  metrics_bind_address = f.metrics_addr;
  webhook_server_port = some 9443;
  port = 7443;
  health_probe_bind_address = f.probe_addr;
  leader_election = f.enable_leader_election;
  leader_election_id = leader_election_id;
}

abbrev pub srl_options : {H : Type 0} → Flags → H → SrlOptions H
srl_options f reg = record {
  poll = f.poll_interval;
  concurrency = f.concurrency;
  registrator = reg;
}

module _ (names : Names) (env : Environment) where
  open env use {World, Handle, call}

  -- `RunE` after the logger and the profiler are set up.
  unfoldable pub reconciler_body : Flags → Eff World (Unit {0})
  unfolding call_or run_manager srl_controller
  reconciler_body f = do
    reg ←
        call_or env "Cannot create registrator"
          (new_registrator (registrator_options reconciler_scheme f))
    rc ←
        call_or env "Cannot create reconciler controller"
          (new_reconciler_controller (":" <> names.gnmi_server_port) reg)
    call_or env "Cannot start reconciler controller" (start_reconciler_controller rc)
    mgr ← call_or env "Cannot add srlconfig manager" (new_manager (reconciler_manager f))
    call_or env "Cannot add ndd controllers to manager"
        (complete_controller mgr (srl_controller names (srl_options f reg)))
    call_or env "unable to create webhook for srl config" (setup_webhook_with_manager mgr)
    run_manager env mgr

  unfoldable pub reconciler_start : Flags → Eff World (Unit {0})
  unfolding reconciler_body with_logger with_profiler
  reconciler_start f = with_logger env f.debug (with_profiler env f.profiler (reconciler_body f))
