-- ===== src/Connector.antt =====
-- `connector` of internal/controllers/srl/srlconfig_controller.go: how a client for the target of a
-- resource is made. Loggers and contexts are left out.
pub mod Laws
pub mod Failures
use config_srl.Prelude.{
  ℕ, String, ◌<>◌, ◌==◌, Bool, true, false, not, Option, none, some, List, [], ◌∷◌, if◌then◌else◌,
}
use config_srl.Prelude.Outcome.{Outcome, ok, err, Error, wrap, wrap_err, deref}
use config_srl.Prelude.Effect.{Eff, lift, ◌>>=◌, ◌>>◌}
use config_srl.Prelude.Calls.{check, call_wrapped}
use config_srl.Api.{Managed, SrlConfig}
use config_srl.Validator.{expect_srl_config}

-- targetv1.Target, the fields that are read.
pub record TargetObject : Type 0 where
  pub name : String
  pub namespace : String

-- gnmitypes.TargetConfig, the fields that are set; the timeout is in seconds.
pub record TargetConfig : Type 0 where
  pub name : String
  pub address : String
  pub timeout : ℕ
  pub skip_verify : Bool
  pub tls_ca : String
  pub tls_cert : String
  pub tls_key : String
  pub gzip : Bool

-- The client that `Connect` returns, by its configuration and its targets.
pub record ExternalDevice : Type 0 where
  pub client : TargetConfig
  pub targets : List String

-- What the connector calls: the usage tracker, the Kubernetes client, the registrator, the gNMI
-- client's dial, the environment, and `%d` of pkgmetav1.GnmiServerPort.
pub record Services : Type 1 where
  pub World : Type 0
  pub track : Managed → World → Option Error × World
  -- `kube.Get` of the target with this namespace and name
  pub get_target : String → String → World → Outcome TargetObject × World
  -- `GetEndpointAddress(service, tag)`
  pub get_endpoint_address : String → String → World → Outcome String × World
  -- `pkgv1.GetTargetTag(namespace, name)`
  pub get_target_tag : String → String → String
  pub create_gnmi_client : TargetConfig → World → Option Error × World
  pub getenv : String → String
  pub gnmi_server_port : String

abbrev pub cannot_track : String
cannot_track = "cannot track TargetConfig usage"

abbrev pub cannot_get_target : String
cannot_get_target = "cannot get Target"

abbrev pub cannot_query : String
cannot_query = "cannot get query from registrator"

abbrev pub cannot_create_client : String
cannot_create_client = "cannot create new client"

-- The configuration that `Connect` fills.
abbrev pub client_config : String → String → TargetConfig
client_config name address = record {
  name = name;
  address = address;
  timeout = 10;
  skip_verify = true;
  tls_ca = "";
  tls_cert = "";
  tls_key = "";
  gzip = false;
}

module _ (s : Services) where
  open s use {
    World, track, get_target, get_endpoint_address, get_target_tag, create_gnmi_client, getenv,
  }

  -- The service of the worker in the cluster.
  unfoldable pub worker_address : String
  worker_address =
      getenv "COMPOSITE_PROVIDER_NAME"
      <> ("-"
          <> ("worker-controller-grpc-svc"
              <> ("."
                  <> (getenv "POD_NAMESPACE" <> (".svc.cluster.local:" <> s.gnmi_server_port)))))

  unfoldable pub find_address : TargetObject → Eff World String
  unfolding call_wrapped worker_address
  find_address t =
      if not (getenv "SERVICE_DISCOVERY" == "")
      then call_wrapped cannot_query
          (get_endpoint_address (getenv "SERVICE_NAME") (get_target_tag t.namespace t.name))
      else lift (ok worker_address)

  unfoldable pub connect : Managed → Eff World ExternalDevice
  unfolding check call_wrapped find_address
  connect mg = do
    cr ← lift (expect_srl_config mg)
    check cannot_track (track mg)
    reference ← lift (deref cr.spec.target_reference)
    t ← call_wrapped cannot_get_target (get_target cr.metadata.namespace reference.name)
    address ← find_address t
    check cannot_create_client (create_gnmi_client (client_config reference.name address))
    lift (ok (record { client = client_config reference.name address; targets = t.name ∷ [] }))
