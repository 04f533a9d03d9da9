-- ===== src/Process/Exit/Status.antt =====
-- How the two processes end, by their arguments and by the calls that they made.
use config_srl.Prelude.{◌≡◌, refl, String, Option, none, some, List}
use config_srl.Prelude.Outcome.{Outcome, ok, err, panic}
use config_srl.Prelude.Effect.{Eff, lift, ◌>>=◌}
use config_srl.Process.{Flags, Names, Call, start_profile, Environment}
use config_srl.Process.Exit.{
  Exit, returned, crashed, exited, Cobra, run_root, execute, worker_execute, reconciler_execute,
  worker_main, reconciler_main,
}
use config_srl.Process.Worker.{worker_start}
use config_srl.Process.Reconciler.{reconciler_start}
use config_srl.Process.Trace.{logged, Entry}
use config_srl.Process.Plan.{Plan, worker_plan, worker_message, reconciler_plan, reconciler_message}
use config_srl.Process.Start.{Started, worker_start-Started, reconciler_start-Started}

-- The end of a process whose command had this outcome.
abbrev pub EndsAs : Outcome (Unit {0}) → Exit → Type 0
EndsAs (ok _) exit = exit ≡ returned
EndsAs (err e) exit = exit ≡ exited 1
EndsAs panic exit = exit ≡ crashed

-- A process, by what cobra makes of its arguments: no call is made unless the command is `start`, and
-- then the calls are those of `Started`, and the process ends as the command does.
abbrev pub MainEnds :
    {H : Type 0}
    → (Call (Unit {0}) → Option String)
    → (Flags → Plan)
    → Outcome (Option Flags)
    → List (Entry H)
    → Exit
    → List (Entry H)
    → Type 0
MainEnds message plan (ok none) before exit after = (exit ≡ returned) × (after ≡ before)
MainEnds message plan (ok (some f)) before exit after =
    (r : Outcome (Unit {0})) × Started message (plan f) f before r after × EndsAs r exit
MainEnds message plan (err e) before exit after = (exit ≡ exited 1) × (after ≡ before)
MainEnds message plan panic before exit after = (exit ≡ crashed) × (after ≡ before)

abbrev exit_of : Outcome (Unit {0}) → Exit
exit_of r = elim r [ ok _ ↦ returned | err _ ↦ exited 1 | panic ↦ crashed ]

exit_of-EndsAs : (r : Outcome (Unit {0})) → EndsAs r (exit_of r)
exit_of-EndsAs (ok _) = refl
exit_of-EndsAs (err e) = refl
exit_of-EndsAs panic = refl

module _ (env : Environment) (cobra : Cobra) (message : Call (Unit {0}) → Option String)
    (plan : Flags → Plan) (start : Flags → Eff (logged env).World (Unit {0})) where
  execute-MainEnds :
      (args : List String) (w : (logged env).World)
      → ((f : Flags) → Started message (plan f) f w.1 (start f w).0 (start f w).1.1)
      → let done = execute cobra start args w in
        MainEnds message plan (cobra.parse args) w.1 done.0 done.1.1
  unfolding execute run_root
  execute-MainEnds args w started = by_parse (cobra.parse args)
    where
      by_parse :
          (p : Outcome (Option Flags))
          → let done =
              (lift p >>= λ command. elim command [ none ↦ lift (ok tt) | some f ↦ start f ]) w in
            MainEnds message plan p w.1 (exit_of done.0) done.1.1
      by_parse (ok none) = (refl, refl)
      by_parse (ok (some f)) = ((start f w).0, started f, exit_of-EndsAs (start f w).0)
      by_parse (err e) = (refl, refl)
      by_parse panic = (refl, refl)

module _ (names : Names) (env : Environment) (cobra : Cobra) where
  -- Neither process makes a call unless cobra reads the command `start` from its arguments: it exits
  -- with status 1 if cobra refuses them, and returns if cobra runs nothing. Started, each makes the
  -- calls of the logger, the profiler and its plan that `Started` describes. It then returns only
  -- if all calls of its plan were made, exits with status 1 only if the last call that was made of
  -- the plan failed with an error, and crashes only if that call panicked. This takes that a
  -- profile can be started.
  pub mains-MainEnds :
      (args : List String) (w : (logged env).World)
      → ((w' : env.World) → (profile : env.Handle) × ((env.call start_profile w').0 ≡ ok profile))
      → let worker = worker_main names (logged env) cobra args w in
        let reconciler = reconciler_main names (logged env) cobra args w in
        MainEnds worker_message (worker_plan names) (cobra.parse args) w.1 worker.0 worker.1.1
        × MainEnds reconciler_message
            (reconciler_plan names)
            (cobra.parse args)
            w.1
            reconciler.0
            reconciler.1.1
  unfolding worker_main reconciler_main worker_execute reconciler_execute
  mains-MainEnds args w starts = (
    execute-MainEnds env cobra worker_message (worker_plan names) (worker_start names (logged env))
        args w (λ f. worker_start-Started names env f w starts),
    execute-MainEnds env cobra reconciler_message (reconciler_plan names)
        (reconciler_start names (logged env)) args w
        (λ f. reconciler_start-Started names env f w starts),
  )
