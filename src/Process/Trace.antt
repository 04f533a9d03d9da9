-- ===== src/Process/Trace.antt =====
-- The record of the calls that a command makes, with their answers, and what it means that a part of
-- a command follows a plan.
use config_srl.Prelude.{String, ◌≡◌, Option, none, some, List, [], ◌∷◌, ◌++◌, map}
use config_srl.Prelude.Outcome.{Error, wrap, Outcome, ok, err, panic}
use config_srl.Process.{
  GrpcServer, ConfigTargetController, TargetController, Reconciling, managed_resources, targets,
  Controller, Call, set_logger, start_profile, serve_pprof, new_client, new_cache, stop_profile,
  new_registrator, start_target_controller, new_reconciler_controller, start_reconciler_controller,
  new_manager, complete_controller, complete_webhook, add_healthz_check, add_readyz_check,
  start_manager, Environment,
}

-- Calls without the handles that they are made on.
module _ {H : Type 0} where
  abbrev forget_server : GrpcServer H → GrpcServer (Unit {0})
  forget_server s = record {
    cache = tt;
    address = s.address;
    gnmi = s.gnmi;
    health = s.health;
    client = tt;
    routes = s.routes;
    watch = s.watch;
    check = s.check;
  }

  abbrev forget_start_stop : ConfigTargetController H → ConfigTargetController (Unit {0})
  forget_start_stop c = record {
    cache = tt;
    client = tt;
    registrator = tt;
    registered = c.registered;
    vendor_type = c.vendor_type;
  }

  abbrev forget_targets : TargetController H → TargetController (Unit {0})
  forget_targets c = record {
    cache = tt;
    grpc_server = forget_server c.grpc_server;
    registrator = tt;
    start_stop = forget_start_stop c.start_stop;
  }

  abbrev forget_reconciling : Reconciling H → Reconciling (Unit {0})
  forget_reconciling (managed_resources k poll reg) = managed_resources k poll tt
  forget_reconciling (targets tc vendor poll) = targets (forget_targets tc) vendor poll

  abbrev forget_controller : Controller H → Controller (Unit {0})
  forget_controller c = record {
    name = c.name;
    max_concurrent_reconciles = c.max_concurrent_reconciles;
    for_kind = c.for_kind;
    owns = c.owns;
    ignores_unchanged_generation = c.ignores_unchanged_generation;
    watches = c.watches;
    reconciler = forget_reconciling c.reconciler;
  }

  abbrev pub forget : Call H → Call (Unit {0})
  forget set_logger = set_logger
  forget start_profile = start_profile
  forget serve_pprof = serve_pprof
  forget (new_client scheme) = new_client scheme
  forget new_cache = new_cache
  forget (stop_profile h) = stop_profile tt
  forget (new_registrator o) = new_registrator o
  forget (start_target_controller tc) = start_target_controller (forget_targets tc)
  forget (new_reconciler_controller a h) = new_reconciler_controller a tt
  forget (start_reconciler_controller h) = start_reconciler_controller tt
  forget (new_manager o) = new_manager o
  forget (complete_controller h c) = complete_controller tt (forget_controller c)
  forget (complete_webhook h k) = complete_webhook tt k
  forget (add_healthz_check h n) = add_healthz_check tt n
  forget (add_readyz_check h n) = add_readyz_check tt n
  forget (start_manager h) = start_manager tt

-- A call that was made, with its answer.
abbrev pub Entry : Type 0 → Type 0
Entry H = Call H × Outcome H

abbrev pub plan_of : {H : Type 0} → List (Entry H) → List (Call (Unit {0}))
plan_of log = map (λ entry. forget entry.0) log

-- The environment that also keeps the log of its calls, the last one at the end.
abbrev pub logged : Environment → Environment
logged env = record {
  World = env.World × List (Entry env.Handle);
  Handle = env.Handle;
  call = λ c w. let (r, w') = env.call c w.0 in (r, (w', w.1 ++ ((c, r) ∷ [])));
}

-- The error that is returned for a failed call, by the message that it is wrapped in, if any.
abbrev pub failure : Option String → Error → Error
failure none cause = cause
failure (some message) cause = wrap cause message

-- How the calls end that a part makes: all calls of the plan are made, or the last one failed and
-- the part returns its error.
abbrev pub Ends :
    {H A : Type 0}
    → (Call (Unit {0}) → Option String)
    → Outcome A
    → List (Entry H)
    → List (Call (Unit {0}))
    → Type 0
Ends message (ok a) log rest = rest ≡ []
Ends {H} message (err e) log rest =
    (front : List (Entry H)) × (c : Call H) × (cause : Error) × (log
      ≡ front ++ ((c, err cause) ∷ []))
    × (e ≡ failure (message (forget c)) cause)
Ends {H} message panic log rest =
    (front : List (Entry H)) × (c : Call H) × (log ≡ front ++ ((c, panic) ∷ []))
