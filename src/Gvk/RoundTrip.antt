-- ===== src/Gvk/RoundTrip.antt =====
-- The entry that is written, and what a later check makes of it.
use config_srl.Prelude.{◌≡◌, refl, ◌∙◌, String, false, some, [], ◌∷◌, arith}
use config_srl.Prelude.Dict.{lookup}
use config_srl.Prelude.Outcome.{Error, ok, err, is_ok, is_err, is_panic, Outcome-Cases}
use config_srl.Gnmi.{json_val}
use config_srl.Api.{SrlConfig, Managed, srl_config}
use config_srl.System.{ResourceAction, pending, Gvk, SystemDevice}
use config_srl.Libraries.{Codec, DeviceModel}
use config_srl.Diff.Repair.{validate_notification_lem}
use config_srl.Validator.Convergence.{IsLawful}
use config_srl.Validator.Diffs.{spec_diff, get_cr_spec_diff}
use config_srl.Gvk.{ExternalObservation, get_spec, gvk_path, gvk_entry, get_gvk_update}

module _ (lib : Codec) where
  -- Where an entry can be made for one action, it can be for any other, and the two differ in the
  -- action alone.
  gvk_entry-action :
      (mg : Managed) (obs : ExternalObservation) (a b : ResourceAction) {g : Gvk}
      → gvk_entry lib mg obs a ≡ ok g
      → gvk_entry lib mg obs b ≡ ok (record g { action = b })
  unfolding gvk_entry
  gvk_entry-action mg obs a b h = ground arith

  pub get_gvk_update_err :
      (mg : Managed) (obs : ExternalObservation) (action : ResourceAction) {e : Error}
      → get_spec lib mg ≡ err e
      → get_gvk_update lib mg obs action ≡ err e
  unfolding get_gvk_update
  get_gvk_update_err mg obs action h = rw h

  pub get_gvk_update_ok :
      (mg : Managed) (obs : ExternalObservation) (action : ResourceAction) {g : Gvk} {text : String}
      → gvk_entry lib mg obs action ≡ ok g
      → lib.emit_json g ≡ ok text
      → get_gvk_update lib mg obs action
        ≡ ok (record { path = gvk_path (lib.get_gvk_name mg); val = json_val text } ∷ [])
  unfolding get_gvk_update
  get_gvk_update_ok mg obs action h k = rw (h, k)

  pub gvk_entry-status :
      (mg : Managed) (obs : ExternalObservation) (action : ResourceAction) {g : Gvk}
      → gvk_entry lib mg obs action ≡ ok g
      → g.status ≡ pending
  unfolding gvk_entry
  gvk_entry-status mg obs action h = ground arith

  pub gvk_entry-spec :
      (cr : SrlConfig) (obs : ExternalObservation) (action : ResourceAction) {g : Gvk}
      → gvk_entry lib (srl_config cr) obs action ≡ ok g
      → (text : String) × (lib.marshal_properties cr.spec.properties ≡ ok text)
        × (g.spec ≡ some text)
  unfolding gvk_entry
  gvk_entry-spec cr obs action h =
      elim (Outcome-Cases (lib.marshal_properties cr.spec.properties)) [
        | is_ok text e ↦ (text, e, ground arith)
        | is_err x e ↦ absurd (ground arith)
        | is_panic e ↦ absurd (ground arith)
      ]

  -- With the laws of `IsLawful`, and if JSON marshalling keeps what a spec parses to: a resource
  -- whose spec parses, and whose entry in the system cache was written from that spec, shows no
  -- difference to it, whatever else the observation and the cache hold.
  pub get_cr_spec_diff-gvk_entry :
      (m : DeviceModel)
      → IsLawful m
      → ((raw text : String)
          → lib.marshal_properties raw ≡ ok text
          → m.new_config_struct text false ≡ m.new_config_struct raw false)
      → (cr : SrlConfig) (obs : ExternalObservation) (action : ResourceAction)
        (system : SystemDevice) {g : Gvk} {c : m.Config}
      → m.new_config_struct cr.spec.properties false ≡ ok c
      → gvk_entry lib (srl_config cr) obs action ≡ ok g
      → lookup (lib.get_gvk_name (srl_config cr)) system.gvk ≡ some g
      → get_cr_spec_diff m lib (srl_config cr) (some system)
        ≡ ok (record { deletes = []; updates = [] })
  unfolding get_cr_spec_diff
  get_cr_spec_diff-gvk_entry m L keeps cr obs action system {g} {c} parses written stored =
      let (n, d) = L.diff_total c c in
      let unchanged = (L.diff_empty c c d).1 refl in
      let (text, marshalled, spec) = gvk_entry-spec cr obs action written in
      let parses_again = keeps cr.spec.properties text marshalled ∙ parses in
      rw (stored, spec_diff)
        (simp
          (parses, spec, parses_again, d, validate_notification_lem n, unchanged.0, unchanged.1))
