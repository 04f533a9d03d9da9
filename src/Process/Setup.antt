-- ===== src/Process/Setup.antt =====
-- The `Setup` functions: of internal/controllers/srl/srlconfig_controller.go, of
-- internal/controllers/target/target_controller.go, and the list of internal/controllers/controllers.go;
-- and that of the webhook.
use config_srl.Prelude.{ℕ, String, ◌<>◌, true, List, [], ◌∷◌}
use config_srl.Prelude.Dict.{Dict, insert}
use config_srl.Prelude.Outcome.{ok}
use config_srl.Prelude.Effect.{Eff, lift, ◌>>=◌}
use config_srl.Api.Group.{srl_config_group_kind}
use config_srl.Process.{
  Names, srl_config_kind, target_kind, managed_resources, targets, kind_source, channel_source,
  Controller, TargetController, Call, complete_webhook,
}

-- The fields of shared.NddControllerOptions that the setups read.
pub record SrlOptions (H : Type 0) : Type 0 where
  pub poll : ℕ
  pub concurrency : ℕ
  pub registrator : H

pub record TargetOptions (H : Type 0) : Type 0 where
  pub poll : ℕ
  pub concurrency : ℕ
  pub target_channel : TargetController H

module _ {H : Type 0} (names : Names) where
  -- Of the connector, the registrator alone is kept: its models, its usage tracker and its client
  -- function, the validator's models and the recorder are left out.
  unfoldable pub srl_controller : SrlOptions H → Controller H
  srl_controller o = record {
    name = names.controller_name (srl_config_group_kind names.schema);
    max_concurrent_reconciles = o.concurrency;
    for_kind = srl_config_kind;
    owns = srl_config_kind ∷ [];
    ignores_unchanged_generation = true;
    watches = kind_source srl_config_kind ∷ channel_source ∷ [];
    reconciler = managed_resources srl_config_kind o.poll o.registrator;
  }

  unfoldable pub target_controller : TargetOptions H → Controller H
  target_controller o = record {
    name = "target.yndd.io/" <> names.target_kind;
    max_concurrent_reconciles = o.concurrency;
    for_kind = target_kind;
    owns = [];
    ignores_unchanged_generation = true;
    watches = [];
    reconciler = targets o.target_channel names.nokia_srl o.poll;
  }

-- `SetupWebhookWithManager` of apis/srl/v1alpha1/srlconfig_webhook.go.
abbrev pub setup_webhook_with_manager : {H : Type 0} → H → Call H
setup_webhook_with_manager mgr = complete_webhook mgr srl_config_kind

module _ {W C : Type 0} where
  -- The loop of controllers.Setup, from the map filled so far: a setup gives a group kind and its
  -- channel.
  unfoldable pub setup_from : Dict C → List (Eff W (String × C)) → Eff W (Dict C)
  setup_from chans [] = lift (ok chans)
  setup_from chans (s ∷ setups) = s >>= λ (gvk, chan). setup_from (insert gvk chan chans) setups

  -- The list of setups is empty.
  unfoldable pub setup : Eff W (Dict C)
  unfolding setup_from
  setup = setup_from [] []
