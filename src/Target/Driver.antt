-- ===== src/Target/Driver.antt =====
-- The driver object of internal/target/srl/srl.go: `New`, `Init` and the setters.
use config_srl.Prelude.{Option, none, List, [], ◌∷◌}
use config_srl.Prelude.Outcome.{Outcome, ok}

-- `srl`, with the pointer to its target and its logger; `none` is nil.
pub record Driver (T L : Type 0) : Type 0 where
  pub target : Option T
  pub log : Option L

module _ {T L : Type 0} where
  unfoldable pub new_driver : Driver T L
  new_driver = record { target = none; log = none }

  abbrev pub with_target : Option T → Driver T L → Driver T L
  with_target t d = record d { target = t }

  abbrev pub with_logging : Option L → Driver T L → Driver T L
  with_logging l d = record d { log = l }

  -- Each option is called on the driver, in order; there is no error.
  unfoldable pub init : List (Driver T L → Driver T L) → Driver T L → Outcome (Driver T L)
  init [] d = ok d
  init (o ∷ opts) d = init opts (o d)
