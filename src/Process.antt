-- ===== src/Process.antt =====
-- The two processes, cmd/reconcilercmd and cmd/workercmd: what they call when they start. A library
-- object that is only put together from its options is the record of these options; a call that may
-- fail, or that others can observe, is a `Call`. Loading the cluster's configuration, which ends the
-- process if it fails, is left out, and so are loggers, contexts and recorders.
pub mod Trace
pub mod Follows
pub mod Setup
pub mod Worker
pub mod Reconciler
pub mod Plan
pub mod Start
pub mod Served
pub mod Handles
pub mod Owned
pub mod Exit
use config_srl.Prelude.{ℕ, String, Bool, true, false, Option, none, some, List, [], ◌∷◌}
use config_srl.Prelude.Outcome.{Outcome, ok, err, panic, wrap_err}
use config_srl.Prelude.Effect.{Eff, ◌>>=◌, ◌>>◌}
use config_srl.Prelude.Calls.{call_wrapped}
use config_srl.Api.Group.{SchemaTexts}
use config_srl.External.{Origin}

-- The flags of both commands. Durations are in seconds. `podname`, `grpc_server_address`,
-- `grpc_query_address` and `autopilot` are parsed and not read again.
pub record Flags : Type 0 where
  pub debug : Bool
  pub profiler : Bool
  pub metrics_addr : String
  pub probe_addr : String
  pub enable_leader_election : Bool
  pub concurrency : ℕ
  pub poll_interval : ℕ
  pub namespace : String
  pub podname : String
  pub grpc_server_address : String
  pub grpc_query_address : String
  pub autopilot : Bool
  pub service_discovery : String
  pub service_discovery_namespace : String
  pub service_discovery_dc_name : String

-- Texts of other repositories: pkgmetav1.GnmiServerPort in decimal, the vendor type and the kind of a
-- target (in lower case), `managed.ControllerName`, and the texts of group kinds.
pub record Names : Type 0 where
  pub gnmi_server_port : String
  pub nokia_srl : String
  pub target_kind : String
  pub controller_name : String → String
  pub schema : SchemaTexts

-- An API group whose types a scheme holds.
pub data ApiGroup : Type 0 where
  kubernetes_group target_group srl_group : ApiGroup

-- registrator.Options
pub record RegistratorOptions : Type 0 where
  pub scheme : List ApiGroup
  pub dc_name : String
  pub service_discovery : String
  pub namespace : String

-- ctrl.Options; `webhook_server_port` is that of an own webhook server.
pub record ManagerOptions : Type 0 where
  pub scheme : List ApiGroup
  pub metrics_bind_address : String
  pub webhook_server_port : Option ℕ
  pub port : ℕ
  pub health_probe_bind_address : String
  pub leader_election : Bool
  pub leader_election_id : String

-- The methods of the gNMI and health handlers that the worker's server is given.
pub data Handler : Type 0 where
  config_get config_set config_delete health_watch health_check : Handler

-- What a registered handler serves: a read, or one of the three parts of a write.
pub data Operation : Type 0 where
  get set_update set_replace set_delete : Operation

pub record Route : Type 0 where
  pub operation : Operation
  pub origin : Origin
  pub handler : Handler

-- grpcserver.Config with the options of `grpcserver.New`; `cache` is that of the gNMI handlers.
pub record GrpcServer (H : Type 0) : Type 0 where
  pub cache : H
  pub address : String
  pub gnmi : Bool
  pub health : Bool
  pub client : H
  pub routes : List Route
  pub watch : Handler
  pub check : Handler

-- configtargetcontroller.Options; the registry's one initializer is for `registered`. The model of
-- the targets, which is that of the generated types, is left out.
pub record ConfigTargetController (H : Type 0) : Type 0 where
  pub cache : H
  pub client : H
  pub registrator : H
  pub registered : String
  pub vendor_type : String

-- targetcontroller.Options with the controller whose methods start and stop a target.
pub record TargetController (H : Type 0) : Type 0 where
  pub cache : H
  pub grpc_server : GrpcServer H
  pub registrator : H
  pub start_stop : ConfigTargetController H

pub data Kind : Type 0 where
  srl_config_kind target_kind : Kind

-- The reconciler that a controller runs: ndd-runtime's for managed resources with the connector's
-- registrator, or the target reconciler with the controller whose channel it watches.
pub data Reconciling (H : Type 0) : Type 0 where
  managed_resources : Kind → ℕ → H → Reconciling H
  targets : TargetController H → String → ℕ → Reconciling H

-- What a controller watches, with the handler of internal/controllers/srl/watcher.go, besides the
-- kind that it is for.
pub data Source : Type 0 where
  kind_source : Kind → Source
  channel_source : Source

-- The chain from `ctrl.NewControllerManagedBy` to `Complete`.
pub record Controller (H : Type 0) : Type 0 where
  pub name : String
  pub max_concurrent_reconciles : ℕ
  pub for_kind : Kind
  pub owns : List Kind
  pub ignores_unchanged_generation : Bool
  pub watches : List Source
  pub reconciler : Reconciling H

-- A call, with the handles of the objects that it is made on.
pub data Call (H : Type 0) : Type 0 where
  set_logger start_profile serve_pprof new_cache : Call H
  new_client : List ApiGroup → Call H
  stop_profile : H → Call H
  new_registrator : RegistratorOptions → Call H
  start_target_controller : TargetController H → Call H
  new_reconciler_controller : String → H → Call H
  start_reconciler_controller : H → Call H
  new_manager : ManagerOptions → Call H
  complete_controller : H → Controller H → Call H
  complete_webhook : H → Kind → Call H
  add_healthz_check add_readyz_check : H → String → Call H
  start_manager : H → Call H

-- What answers the calls. A call that returns no object gives a handle that nothing uses.
pub record Environment : Type 1 where
  pub World : Type 0
  pub Handle : Type 0
  pub call : Call Handle → World → Outcome Handle × World

abbrev pub leader_election_id : String
leader_election_id = "c66ce353.ndd.yndd.io"

module _ (env : Environment) where
  open env use {World, Handle, call}

  -- `if err := call; err != nil { return errors.Wrap(err, message) }`
  unfoldable pub call_or : String → Call Handle → Eff World Handle
  unfolding call_wrapped
  call_or message c = call_wrapped message (call c)

  -- A call whose result is dropped.
  unfoldable pub run_call : Call Handle → Eff World (Unit {0})
  run_call c w = (ok tt, (call c w).1)

  -- `defer`: the call is made when the body is done, however it ends, and its result is dropped.
  unfoldable pub defer_call : {A : Type 0} → Call Handle → Eff World A → Eff World A
  unfolding run_call
  defer_call c body w = let (r, w') = body w in (r, (run_call c w').1)

  unfoldable pub with_logger : {A : Type 0} → Bool → Eff World A → Eff World A
  unfolding run_call
  with_logger true body = run_call set_logger >> body
  with_logger false body = body

  -- `if profiler`: the profile is started now and stopped at the return; its server runs aside.
  unfoldable pub with_profiler : {A : Type 0} → Bool → Eff World A → Eff World A
  unfolding run_call defer_call
  with_profiler true body = do
    profile ← call start_profile
    defer_call (stop_profile profile) (run_call serve_pprof >> body)
  with_profiler false body = body

  -- The end of both commands: the checks of the manager, then its run.
  unfoldable pub run_manager : Handle → Eff World (Unit {0})
  unfolding call_or run_call
  run_manager mgr = do
    call_or "unable to set up health check" (add_healthz_check mgr "health")
    call_or "unable to set up ready check" (add_readyz_check mgr "check")
    call_or "problem running manager" (start_manager mgr)
    (λ w. (ok tt, w))
