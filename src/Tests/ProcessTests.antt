-- ===== src/Tests/ProcessTests.antt =====
-- The commands in a cluster that lets everything succeed but the run of the manager, and the client
-- on a server that keeps the origins of what it gets.
use config_srl.Prelude.{
  ℕ, suc, String, ◌<>◌, true, ◌≡◌, refl, ◌⊎◌, inl, inr, none, some, List, [], ◌∷◌,
}
use config_srl.Prelude.Lists.{All}
use config_srl.Prelude.Outcome.{Outcome, ok, err, foreign}
use config_srl.Api.{srl_config}
use config_srl.Gnmi.{Update, SetRequest}
use config_srl.System.{update_action}
use config_srl.External.{Origin, GnmiClient, get_running_config, get_system_config}
use config_srl.External.History.{perform}
use config_srl.Process.{set_replace, Flags, Names, Call, start_manager, Environment}
use config_srl.Process.Worker.{worker_flags}
use config_srl.Process.Trace.{logged}
use config_srl.Process.Plan.{worker_plan, worker_message, reconciler_plan, reconciler_message}
use config_srl.Process.Exit.{
  Exit, exited, Cobra, execute, worker_execute, worker_main, reconciler_main,
}
use config_srl.Process.Exit.Status.{MainEnds, mains-MainEnds}
use config_srl.Process.Handles.{Owned}
use config_srl.Process.Served.{HasRoute, SetServed, requests-served}
use config_srl.Tests.Resources.{cr, nothing_observed, library, origins}

abbrev names : Names
names = record {
  gnmi_server_port = "9999";
  nokia_srl = "nokia-srl";
  target_kind = "target";
  controller_name = λ kind. "managed/" <> kind;
  schema = record {
    group_kind_text = λ group kind. kind <> ("." <> group);
    group_version_text = λ group version. group <> ("/" <> version);
  };
}

-- Handles are numbers, given in order.
abbrev cluster : Environment
cluster = record { World = ℕ; Handle = ℕ; call = answer }
  where
    answer : Call ℕ → ℕ → Outcome ℕ × ℕ
    answer (start_manager mgr) w = (err (foreign "port in use"), suc w)
    answer _ w = (ok w, suc w)

-- The same with a manager that runs until it is asked to stop.
abbrev quiet_cluster : Environment
quiet_cluster = record { World = ℕ; Handle = ℕ; call = λ c w. (ok w, suc w) }

abbrev with_profile : Flags → Flags
with_profile f = record f { profiler = true; debug = true }

abbrev no_variables : String → String
no_variables name = ""

-- A command line: no argument asks for the help, and any other is read as the command `start`.
abbrev command_line : Cobra
command_line = record {
  parse = λ args. elim args [
    | [] ↦ ok none
    | _ ∷ _ ↦ ok (some (with_profile (worker_flags no_variables)))
  ];
}

abbrev started_worker : Exit × (logged cluster).World
started_worker = worker_main names (logged cluster) command_line ("start" ∷ []) (0, [])

abbrev started_reconciler : Exit × (logged cluster).World
started_reconciler = reconciler_main names (logged cluster) command_line ("start" ∷ []) (0, [])

mains-MainEnds_example :
    MainEnds worker_message
      (worker_plan names)
      (ok (some (with_profile (worker_flags no_variables))))
      []
      started_worker.0
      started_worker.1.1
    × MainEnds reconciler_message
        (reconciler_plan names)
        (ok (some (with_profile (worker_flags no_variables))))
        []
        started_reconciler.0
        started_reconciler.1.1
mains-MainEnds_example =
    mains-MainEnds names cluster command_line ("start" ∷ []) (0, []) (λ w. (w, refl))

-- The manager cannot run, so the worker exits with status 1.
worker_exits : started_worker.0 ≡ exited 1
unfolding worker_main worker_execute execute
worker_exits = refl

-- The origins of the requests with something to do.
abbrev recorder : GnmiClient
recorder = record {
  World = List String;
  set = λ req w. elim req.replace [ [] ↦ (none, w) | _ ∷ _ ↦ (none, req.prefix.origin ∷ w) ];
  get = λ req w. (record { response = none; error = none }, req.prefix.origin ∷ w);
  close = λ w. w;
}

abbrev IsOrigin : String → Type 0
IsOrigin text = (o : Origin) × (origins o ≡ text)

served_set :
    (req : SetRequest) (w : List String)
    → SetServed origins req
    → All IsOrigin w
    → All IsOrigin (recorder.set req w).1
served_set req w (update, replace, delete) h = by_parts req.replace replace
  where
    by_parts :
        (updates : List Update)
        → (updates ≡ [] ⊎ HasRoute origins set_replace req.prefix.origin)
        → All IsOrigin (recorder.set (record req { replace = updates }) w).1
    by_parts [] served = h
    by_parts (u ∷ us) (inl e) = cc e
    by_parts (u ∷ us) (inr (i, r, at, op, o)) = ((r.origin, o), h)

requests-served_example :
    All IsOrigin
      (perform library origins recorder update_action (srl_config cr) nothing_observed []).1
    × All IsOrigin (get_running_config library origins recorder (srl_config cr) []).1
    × All IsOrigin (get_system_config library origins recorder (srl_config cr) []).1
requests-served_example =
    requests-served library origins recorder (All IsOrigin) served_set
      (λ req w (i, r, at, op, o) h. ((r.origin, o), h)) update_action (srl_config cr)
      nothing_observed [] tt
