-- ===== src/Webhook/Laws.antt =====
-- Which resources the webhook admits, and what that saves the controller.
use config_srl.Prelude.{◌≡◌, refl, ◌↔◌, ◌⊎◌, inl, inr, String, true, false, none, some, [], ◌∷◌}
use config_srl.Prelude.Outcome.{
  Outcome, ok, err, panic, Error, error_text, is_ok, is_err, is_panic, Outcome-Cases,
}
use config_srl.Api.{SrlConfig, srl_config}
use config_srl.Libraries.{DeviceModel}
use config_srl.Validator.{validate_cr_spec_update}
use config_srl.Webhook.{InvalidResource, validate_create, validate_update}

module _ (m : DeviceModel) (r : SrlConfig) where
  abbrev parsed : Outcome m.Config
  parsed = m.new_config_struct r.spec.properties false

  -- The refusal of a spec that the parser refuses with `e`.
  abbrev pub refusal : Error → InvalidResource
  refusal e = record {
    group = "srl3.nddp.yndd.io";
    kind = "Srl3Device";
    name = r.metadata.name;
    errors = record { field = "spec"; bad_value = r.spec.properties; detail = error_text e } ∷ [];
  }

  validate_create_ok : (c : m.Config) → parsed ≡ ok c → validate_create m r ≡ ok none
  unfolding validate_create
  validate_create_ok c h = rw (h, validate_create)

  validate_create_err : (e : Error) → parsed ≡ err e → validate_create m r ≡ ok (some (refusal e))
  unfolding validate_create
  validate_create_err e h = rw (h, validate_create)

  validate_create_panic : parsed ≡ panic → validate_create m r ≡ panic
  unfolding validate_create
  validate_create_panic h = rw (h, validate_create)

  -- A resource is admitted on creation exactly if its spec parses. A refusal names the resource and
  -- quotes its spec with the parser's error. An update is judged like a creation, whatever the old
  -- object was.
  pub validate_create_correct :
      {Object : Type 0} (old : Object)
      → ((validate_create m r ≡ ok none)
          ↔ ((c : m.Config) × (m.new_config_struct r.spec.properties false ≡ ok c)))
        × ((x : InvalidResource)
            → (validate_create m r ≡ ok (some x)) ↔ (
                (e : Error) × (m.new_config_struct r.spec.properties false ≡ err e)
                × (x ≡ refusal e)))
        × (validate_update m r old ≡ validate_create m r)
  unfolding validate_create validate_update
  validate_create_correct old = (
    (admitted, λ (c, h). validate_create_ok c h),
    (λ x. (refused x, λ (e, h, s). rw s (validate_create_err e h))),
    refl,
  )
    where
      admitted : validate_create m r ≡ ok none → (c : m.Config) × (parsed ≡ ok c)
      admitted h = elim (Outcome-Cases parsed) [
        | is_ok c e ↦ (c, e)
        | is_err e f ↦ cc (validate_create_err e f)
        | is_panic e ↦ cc (validate_create_panic e)
      ]

      refused :
          (x : InvalidResource)
          → validate_create m r ≡ ok (some x)
          → (e : Error) × (parsed ≡ err e) × (x ≡ refusal e)
      refused x h = elim (Outcome-Cases parsed) [
        | is_ok c e ↦ cc (validate_create_ok c e)
        | is_err e f ↦ (e, f, cc (validate_create_err e f))
        | is_panic e ↦ cc (validate_create_panic e)
      ]

  -- For a resource that the webhook admits, an error of the update check is one of the running
  -- configuration's parse or of the merge, never of the resource's spec.
  pub validate_cr_spec_update_admitted :
      (running_cfg : String) (e : Error)
      → validate_create m r ≡ ok none
      → validate_cr_spec_update m (srl_config r) running_cfg ≡ err e
      → (m.new_config_struct running_cfg true ≡ err e)
        ⊎ ((run : m.Config) × (spec : m.Config) × (m.new_config_struct running_cfg true ≡ ok run)
            × (m.new_config_struct r.spec.properties false ≡ ok spec)
            × (m.merge_overwrite_into run spec ≡ err e))
  unfolding validate_cr_spec_update
  validate_cr_spec_update_admitted running_cfg e ad h =
      let (spec, p) = (validate_create_correct tt).0.0 ad in
      elim (Outcome-Cases (m.new_config_struct running_cfg true)) [
        | is_ok run f ↦ elim (Outcome-Cases (m.merge_overwrite_into run spec)) [
          | is_ok merged g ↦ cc (rw (f, p, g) at h)
          | is_err e' g ↦ inr (run, spec, f, p, cc (rw (f, p, g) at h))
          | is_panic g ↦ cc (rw (f, p, g) at h)
        ]
        | is_err e' f ↦ inl (cc (rw f at h))
        | is_panic f ↦ cc (rw f at h)
      ]
