-- ===== src/Validator/Spec.antt =====
-- The check of a spec that is to be merged into the running configuration.
use config_srl.Prelude.{◌≡◌, ◌↔◌, refl, ap, String, true, false, Option, none, some}
use config_srl.Prelude.Outcome.{ok, >>=-eq-ok, ok-injective}
use config_srl.Api.{SrlConfig, srl_config}
use config_srl.Libraries.{DeviceModel}
use config_srl.Validator.{CrSpecObservation, observe_validation, validate_cr_spec_update}

abbrev pub succeeded : CrSpecObservation
succeeded = record { success = true; message = "" }

abbrev pub refused_with : String → CrSpecObservation
refused_with text = record { success = false; message = text }

-- What a validation must have given for each observation.
observe-succeeded : (v : Option String) → observe_validation v ≡ succeeded → v ≡ none
observe-succeeded none h = refl
observe-succeeded (some text) h = cc (ap (λ o. o.success) h)

observe-refused_with :
    (v : Option String) (text : String) → observe_validation v ≡ refused_with text → v ≡ some text
observe-refused_with none text h = cc (ap (λ o. o.success) h)
observe-refused_with (some t) text h = ap (λ o. some o.message) h

module _ (m : DeviceModel) (cr : SrlConfig) (running_cfg : String) where
  open m use {Config}

  -- The spec, parsed without validation, merged over the running configuration, parsed with it.
  abbrev pub IsMerged : Config → Type 0
  IsMerged c =
      (run : Config) × (spec : Config) × (m.new_config_struct running_cfg true ≡ ok run)
      × (m.new_config_struct cr.spec.properties false ≡ ok spec)
      × (m.merge_overwrite_into run spec ≡ ok c)

  IsMerged-of_ok :
      (o : CrSpecObservation)
      → validate_cr_spec_update m (srl_config cr) running_cfg ≡ ok o
      → (c : Config) × IsMerged c × (observe_validation (m.validate none c) ≡ o)
  unfolding validate_cr_spec_update
  IsMerged-of_ok o h =
      let (run, e1, h1) = >>=-eq-ok (m.new_config_struct running_cfg true) _ h in
      let (spec, e2, h2) = >>=-eq-ok (m.new_config_struct cr.spec.properties false) _ h1 in
      let (c, e3, h3) = >>=-eq-ok (m.merge_overwrite_into run spec) _ h2 in
      (c, (run, spec, e1, e2, e3), ok-injective _ o h3)

  ok-of_merged :
      (c : Config) (v : Option String)
      → IsMerged c
      → m.validate none c ≡ v
      → validate_cr_spec_update m (srl_config cr) running_cfg ≡ ok (observe_validation v)
  unfolding validate_cr_spec_update
  ok-of_merged c v (run, spec, e1, e2, e3) h = rw (e1, e2, e3, h)

  -- The check reports success exactly if the running configuration parses with validation, the spec
  -- parses without, the spec can be merged over it, and what comes of the merge validates. It
  -- reports a refusal with a message exactly if all this holds but the last, and the message is the
  -- error of that validation.
  pub validate_cr_spec_update_iff :
      ((validate_cr_spec_update m (srl_config cr) running_cfg ≡ ok succeeded)
        ↔ ((c : Config) × IsMerged c × (m.validate none c ≡ none)))
      × ((text : String)
          → (validate_cr_spec_update m (srl_config cr) running_cfg ≡ ok (refused_with text))
            ↔ ((c : Config) × IsMerged c × (m.validate none c ≡ some text)))
  validate_cr_spec_update_iff = (
    (
      λ h. let (c, merged, o) = IsMerged-of_ok succeeded h in (c, merged, observe-succeeded _ o),
      λ (c, merged, v). ok-of_merged c none merged v,
    ),
    λ text. (
      λ h.
          let (c, merged, o) = IsMerged-of_ok (refused_with text) h in
          (c, merged, observe-refused_with _ text o),
      λ (c, merged, v). ok-of_merged c (some text) merged v,
    ),
  )
