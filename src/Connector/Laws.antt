-- ===== src/Connector/Laws.antt =====
-- What a client that `connect` returns stands for, and which name it dials.
use config_srl.Prelude.{
  ◌≡◌, ◌≢◌, ◌⊎◌, inl, inr, ap, sym, Bool-cases, eq_iff, String, ◌==◌, Option, none, some, [], ◌∷◌,
  arith, ◌<>◌, true, false,
}
use config_srl.Prelude.Outcome.{ok, deref, ok-injective}
use config_srl.Prelude.Effect.{Eff, lift, ◌>>=◌, ◌>>◌, >>=-eq-ok}
use config_srl.Prelude.Calls.{check, call_wrapped, check-eq-ok, call_wrapped-eq-ok}
use config_srl.Api.{Reference, Managed, SrlConfig, srl_config, other_resource}
use config_srl.Validator.{expect_srl_config}
use config_srl.Connector.{
  TargetConfig, TargetObject, ExternalDevice, Services, worker_address, find_address, client_config,
  connect, cannot_track, cannot_get_target, cannot_query, cannot_create_client,
}

module _ (s : Services) where
  open s use {World}

  expect-eq-ok :
      (mg : Managed) {cr : SrlConfig} {w w' : World}
      → lift (expect_srl_config mg) w ≡ (ok cr, w')
      → (mg ≡ srl_config cr) × (w' ≡ w)
  expect-eq-ok (srl_config cr) h = ground arith
  expect-eq-ok (other_resource r) h = absurd (ground arith)

  deref-eq-ok :
      {A : Type 0} (o : Option A) {a : A} {w w' : World}
      → lift (deref o) w ≡ (ok a, w')
      → (o ≡ some a) × (w' ≡ w)
  deref-eq-ok none h = absurd (ground arith)
  deref-eq-ok (some a) h = ground arith

  -- What the client is dialled with, field by field.
  abbrev pub dialled_config : String → String → TargetConfig
  dialled_config reference address = record {
    name = reference;
    address = address;
    timeout = 10;
    skip_verify = true;
    tls_ca = "";
    tls_cert = "";
    tls_key = "";
    gzip = false;
  }

  -- The service of the worker, in the namespace of the process.
  abbrev pub service_address : String
  service_address =
      s.getenv "COMPOSITE_PROVIDER_NAME"
      <> ("-"
          <> ("worker-controller-grpc-svc"
              <> ("."
                  <> (s.getenv "POD_NAMESPACE" <> (".svc.cluster.local:" <> s.gnmi_server_port)))))

  -- The address for the target `t`: the worker's service, or with service discovery what the
  -- registrator knows under the target's tag.
  abbrev pub Found : TargetObject → String → World → World → Type 0
  Found t address w w' =
      ((s.getenv "SERVICE_DISCOVERY" ≡ "") × (address ≡ service_address) × (w' ≡ w))
      ⊎ ((s.getenv "SERVICE_DISCOVERY" ≢ "")
          × (s.get_endpoint_address (s.getenv "SERVICE_NAME") (s.get_target_tag t.namespace t.name)
                w
              ≡ (ok address, w')))

  find_address-eq-ok :
      (t : TargetObject) (w : World) {address : String} {w' : World}
      → find_address s t w ≡ (ok address, w')
      → Found t address w w'
  unfolding find_address worker_address
  find_address-eq-ok t w h = elim (Bool-cases (s.getenv "SERVICE_DISCOVERY" == "")) [
    | inl e ↦ inl ((eq_iff _ _).0 e, ground arith, ground arith)
    | inr e ↦ inr (
      (λ empty. cc ((eq_iff _ _).1 empty)),
      call_wrapped-eq-ok cannot_query
          (s.get_endpoint_address (s.getenv "SERVICE_NAME") (s.get_target_tag t.namespace t.name)) w
          (rw e at h),
    )
  ]

  -- How the client `device` for `mg` came about, from the state `w` to `w'`.
  pub record Connected (mg : Managed) (w : World) (device : ExternalDevice) (w' : World)
      : Type 0 where
    pub cr : SrlConfig
    pub reference : Reference
    pub target : TargetObject
    pub address : String
    pub after_track : World
    pub after_get : World
    pub after_find : World
    pub is_config : mg ≡ srl_config cr
    pub has_reference : cr.spec.target_reference ≡ some reference
    pub tracked : s.track mg w ≡ (none, after_track)
    pub got : s.get_target cr.metadata.namespace reference.name after_track ≡ (ok target, after_get)
    pub found : Found target address after_get after_find
    pub dialled :
        s.create_gnmi_client (dialled_config reference.name address) after_find ≡ (none, w')
    pub is_device :
        device
        ≡ record { client = dialled_config reference.name address; targets = target.name ∷ [] }

  -- What `connect` goes on to do after each of its steps.
  unfoldable pub dialling : Reference → TargetObject → String → Eff World ExternalDevice
  unfolding check
  dialling reference t address = do
    check cannot_create_client (s.create_gnmi_client (client_config reference.name address))
    lift (ok (record { client = client_config reference.name address; targets = t.name ∷ [] }))

  unfoldable pub finding : Reference → TargetObject → Eff World ExternalDevice
  unfolding dialling find_address
  finding reference t = find_address s t >>= dialling reference t

  unfoldable pub getting : SrlConfig → Reference → Eff World ExternalDevice
  unfolding finding call_wrapped
  getting cr reference =
      call_wrapped cannot_get_target (s.get_target cr.metadata.namespace reference.name)
      >>= finding reference

  unfoldable pub referring : SrlConfig → Unit {0} → Eff World ExternalDevice
  unfolding getting
  referring cr _ = lift (deref cr.spec.target_reference) >>= getting cr

  unfoldable pub tracking : Managed → SrlConfig → Eff World ExternalDevice
  unfolding referring
  tracking mg cr = check cannot_track (s.track mg) >>= referring cr

  -- A client is returned only for an SrlConfig with a target reference, after its use of the target
  -- was tracked, the target was read, its address was found, and the client was dialled, in this
  -- order. It dials the address found under the name of the reference, for the target that was read.
  pub connect-Connected :
      (mg : Managed) (w : World) (device : ExternalDevice) (w' : World)
      → connect s mg w ≡ (ok device, w')
      → Connected mg w device w'
  unfolding connect tracking
  connect-Connected mg w device w' h =
      let (cr, v0, h0, r0) = >>=-eq-ok (lift (expect_srl_config mg)) (tracking mg) w h in
      let (x1, v1, h1, r1) = >>=-eq-ok (check cannot_track (s.track mg)) (referring cr) v0 r0 in
      let (reference, v2, h2, r2) =
        >>=-eq-ok (lift (deref cr.spec.target_reference)) (getting cr) v1 r1 in
      let get_target = s.get_target cr.metadata.namespace reference.name in
      let (t, v3, h3, r3) =
        >>=-eq-ok (call_wrapped cannot_get_target get_target) (finding reference) v2 r2 in
      let (address, v4, h4, r4) = >>=-eq-ok (find_address s t) (dialling reference t) v3 r3 in
      let dial = s.create_gnmi_client (client_config reference.name address) in
      let (x5, v5, h5, r5) =
        >>=-eq-ok (check cannot_create_client dial)
          (λ _.
            lift (
              ok (record { client = client_config reference.name address; targets = t.name ∷ [] })))
          v4 r4 in
      let cast = expect-eq-ok mg h0 in
      let named = deref-eq-ok cr.spec.target_reference h2 in
      let same : v5 ≡ w' = ap (λ r. r.1) r5 in
      record {
        cr = cr;
        reference = reference;
        target = t;
        address = address;
        after_track = v1;
        after_get = v3;
        after_find = v4;
        is_config = cast.0;
        has_reference = named.0;
        tracked = rw cast.1 at (check-eq-ok cannot_track (s.track mg) v0 h1);
        got = rw named.1 at (call_wrapped-eq-ok cannot_get_target get_target v2 h3);
        found = find_address-eq-ok t v3 h4;
        dialled = rw same at (check-eq-ok cannot_create_client dial v4 h5);
        is_device = sym (ok-injective _ device (ap (λ r. r.0) r5));
      }
