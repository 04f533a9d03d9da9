-- ===== src/Process/Exit.antt =====
-- cmd/workercmd and cmd/reconcilercmd, main.go and `Execute` of root.go: how the processes end.
pub mod Status
use config_srl.Prelude.{ℕ, String, Option, none, some, List}
use config_srl.Prelude.Outcome.{Outcome, ok, err, panic}
use config_srl.Prelude.Effect.{Eff, lift, ◌>>=◌}
use config_srl.Process.{Flags, Names, Environment}
use config_srl.Process.Worker.{worker_start}
use config_srl.Process.Reconciler.{reconciler_start}

-- The end of a process: `main` returns, `os.Exit` with a status, or a panic.
pub data Exit : Type 0 where
  returned crashed : Exit
  exited : ℕ → Exit

-- What cobra makes of the arguments: an error, the flags of the command `start`, or a run of
-- nothing, such as the help.
pub record Cobra : Type 0 where
  pub parse : List String → Outcome (Option Flags)

module _ {W : Type 0} (cobra : Cobra) where
  -- `rootCmd.Execute()`, which returns the error of the command that it runs.
  unfoldable pub run_root : (Flags → Eff W (Unit {0})) → List String → Eff W (Unit {0})
  run_root start args =
      lift (cobra.parse args) >>= λ command. elim command [ none ↦ lift (ok tt) | some f ↦ start f ]

  -- The body of `Execute`.
  unfoldable pub execute : (Flags → Eff W (Unit {0})) → List String → W → Exit × W
  unfolding run_root
  execute start args w =
      let (r, w') = run_root start args w in
      (elim r [ ok _ ↦ returned | err _ ↦ exited 1 | panic ↦ crashed ], w')

module _ (names : Names) (env : Environment) (cobra : Cobra) where
  -- `Execute` of each process.
  unfoldable pub worker_execute : List String → env.World → Exit × env.World
  unfolding execute worker_start
  worker_execute args = execute cobra (worker_start names env) args

  unfoldable pub reconciler_execute : List String → env.World → Exit × env.World
  unfolding execute reconciler_start
  reconciler_execute args = execute cobra (reconciler_start names env) args

  unfoldable pub worker_main : List String → env.World → Exit × env.World
  unfolding worker_execute
  worker_main args = worker_execute args

  unfoldable pub reconciler_main : List String → env.World → Exit × env.World
  unfolding reconciler_execute
  reconciler_main args = reconciler_execute args
