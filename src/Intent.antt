-- ===== src/Intent.antt =====
-- pkg/intent/config/v1alpha1/config.go: the list of the resources, for the applications of intents.
-- `InitConfig` only stores the client.
use config_srl.Prelude.{Option, none, some, List, []}
use config_srl.Prelude.Outcome.{ok, err, Error}
use config_srl.Prelude.Effect.{Eff}
use config_srl.Api.{SrlConfigList}

-- resource.ClientApplicator: `list opts into` gives the list that `into` has become and an error.
pub record ClientApplicator : Type 1 where
  pub World : Type 0
  pub ListOption : Type 0
  pub list : List ListOption → SrlConfigList → World → (SrlConfigList × Option Error) × World

module _ (c : ClientApplicator) where
  pub list_configs : List c.ListOption → Eff c.World SrlConfigList
  list_configs opts w =
      let (r, w') = c.list opts (record { items = [] }) w in
      elim r.1 [ none ↦ (ok r.0, w') | some cause ↦ (err cause, w') ]
