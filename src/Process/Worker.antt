-- ===== src/Process/Worker.antt =====
-- cmd/workercmd/worker: start.go and root.go.
use config_srl.Prelude.{String, ◌<>◌, Bool, true, false, none, List, [], ◌∷◌}
use config_srl.Prelude.Effect.{Eff, ◌>>=◌, ◌>>◌}
use config_srl.External.{Origin, system_origin, config_origin}
use config_srl.Process.{
  Flags, Names, RegistratorOptions, ApiGroup, kubernetes_group, target_group, ManagerOptions,
  Handler, config_get, config_set, config_delete, health_watch, health_check, Operation, get,
  set_update, set_replace, set_delete, Route, GrpcServer, TargetController, new_registrator,
  new_client, new_cache, start_target_controller, new_manager, complete_controller, Environment,
  leader_election_id, call_or, with_logger, with_profiler, run_manager,
}
use config_srl.Process.Setup.{TargetOptions, target_controller}

-- The defaults of the flags of the root command: `debug` and `profiler`.
abbrev worker_root_flags : Bool × Bool
worker_root_flags = (false, false)

-- The defaults of the flags, from the environment's variables.
pub worker_flags : (String → String) → Flags
worker_flags getenv = record {
  debug = worker_root_flags.0;
  profiler = worker_root_flags.1;
  metrics_addr = ":8080";
  probe_addr = ":8081";
  enable_leader_election = false;
  concurrency = 1;
  poll_interval = 600;
  namespace = getenv "POD_NAMESPACE";
  podname = getenv "POD_NAME";
  grpc_server_address = "";
  grpc_query_address = "";
  autopilot = true;
  service_discovery = getenv "SERVICE_DISCOVERY";
  service_discovery_namespace = getenv "SERVICE_DISCOVERY_NAMESPACE";
  service_discovery_dc_name = getenv "SERVICE_DISCOVERY_DCNAME";
}

-- What `init` adds to the scheme.
abbrev pub worker_scheme : List ApiGroup
worker_scheme = kubernetes_group ∷ target_group ∷ []

abbrev route : Operation → Origin → Handler → Route
route operation origin handler = record {
  operation = operation;
  origin = origin;
  handler = handler;
}

abbrev pub worker_routes : List Route
worker_routes =
    route get config_origin config_get
    ∷ route set_update config_origin config_set
    ∷ route set_replace config_origin config_set
    ∷ route set_delete config_origin config_delete
    ∷ route get system_origin config_get
    ∷ route set_update system_origin config_set
    ∷ route set_replace system_origin config_set
    ∷ route set_delete system_origin config_delete
    ∷ []

module _ {H : Type 0} (names : Names) where
  unfoldable pub worker_server : H → H → GrpcServer H
  worker_server cache client = record {
    cache = cache;
    address = ":" <> names.gnmi_server_port;
    gnmi = true;
    health = true;
    client = client;
    routes = worker_routes;
    watch = health_watch;
    check = health_check;
  }

  -- The registrator, the client and the cache are shared by all parts.
  unfoldable pub worker_target_controller : H → H → H → TargetController H
  unfolding worker_server
  worker_target_controller registrator client cache = record {
    cache = cache;
    grpc_server = worker_server cache client;
    registrator = registrator;
    start_stop = record {
      cache = cache;
      client = client;
      registrator = registrator;
      registered = names.nokia_srl;
      vendor_type = names.nokia_srl;
    };
  }

abbrev pub worker_manager : Flags → ManagerOptions
worker_manager f = record {
  scheme = worker_scheme;
  metrics_bind_address = f.metrics_addr;
  webhook_server_port = none;
  port = 7443;
  health_probe_bind_address = f.probe_addr;
  leader_election = f.enable_leader_election;
  leader_election_id = leader_election_id;
}

abbrev pub registrator_options : List ApiGroup → Flags → RegistratorOptions
registrator_options scheme f = record {
  scheme = scheme;
  dc_name = f.service_discovery_dc_name;
  service_discovery = f.service_discovery;
  namespace = f.service_discovery_namespace;
}

abbrev pub target_options : {H : Type 0} → Flags → TargetController H → TargetOptions H
target_options f tc = record {
  poll = f.poll_interval;
  concurrency = f.concurrency;
  target_channel = tc;
}

module _ (names : Names) (env : Environment) where
  open env use {World, Handle, call}

  -- `RunE` after the logger and the profiler are set up.
  unfoldable pub worker_body : Flags → Eff World (Unit {0})
  unfolding call_or run_manager worker_target_controller target_controller
  worker_body f = do
    reg ←
        call_or env "Cannot create registrator"
          (new_registrator (registrator_options worker_scheme f))
    cl ← call_or env "Cannot create client" (new_client worker_scheme)
    cache ← call new_cache
    let tc = worker_target_controller names reg cl cache
    call (start_target_controller tc)
    mgr ← call_or env "Cannot create manager" (new_manager (worker_manager f))
    call_or env "Cannot add target to manager"
        (complete_controller mgr (target_controller names (target_options f tc)))
    run_manager env mgr

  unfoldable pub worker_start : Flags → Eff World (Unit {0})
  unfolding worker_body with_logger with_profiler
  worker_start f = with_logger env f.debug (with_profiler env f.profiler (worker_body f))
