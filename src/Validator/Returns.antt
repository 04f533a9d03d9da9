-- ===== src/Validator/Returns.antt =====
-- The checks of the validator return on a system device in which what they dereference is there.
use config_srl.Prelude.{
  ℕ, ◌≡◌, refl, sym, ◌∙◌, String, Bool, true, false, Option, none, some, List, [], ◌∷◌,
}
use config_srl.Prelude.Dict.{lookup}
use config_srl.Prelude.Outcome.{Outcome, deref, ◌>>=◌}
use config_srl.Prelude.Returns.{Returns, ok-Returns, >>=-Returns}
use config_srl.Gnmi.{GnmiPath, Update, Notification}
use config_srl.Api.{SrlConfig, Managed}
use config_srl.System.{Gvk, SystemDevice}
use config_srl.Libraries.{DeviceModel, Codec}
use config_srl.Diff.{validate_notification}
use config_srl.Diff.Repair.{validate_notification_lem}
use config_srl.Validator.{
  expect_srl_config, validate_cr_spec_update, validate_cr_spec_delete, delete_nodes,
  add_notifications,
}
use config_srl.Validator.Diffs.{spec_diff, get_cr_spec_diff, get_cr_actual_diff}
use config_srl.Validator.Complete.{
  IsCompleteEntry, IsComplete, deref-Returns, expect_srl_config-Returns,
}

-- No call of the device model panics.
pub record ModelReturns (m : DeviceModel) : Type 0 where
  pub new_config_struct :
      (text : String) (validated : Bool) → Returns (m.new_config_struct text validated)
  pub json_unmarshal : (text : String) → Returns (m.json_unmarshal text)
  pub merge_struct_into : (a b : m.Config) → Returns (m.merge_struct_into a b)
  pub merge_overwrite_into : (a b : m.Config) → Returns (m.merge_overwrite_into a b)
  pub diff : (a b : m.Config) → Returns (m.diff a b)
  pub deep_copy : (a : m.Config) → Returns (m.deep_copy a)
  pub to_gnmi_notifications : (a : m.Config) (now : ℕ) → Returns (m.to_gnmi_notifications a now)
  pub delete_node : (a : m.Config) (p : GnmiPath) → Returns (m.delete_node a p)

module _ (m : DeviceModel) (R : ModelReturns m) where
  open m use {Config}

  repair-Returns : (n : Notification) → Returns (validate_notification n)
  repair-Returns n h = cc (sym (validate_notification_lem n) ∙ h)

  -- The steps that the checks share: the resource, a parse, and a diff with its repair.
  resource-Returns :
      {B : Type 0} {f : SrlConfig → Outcome B} (mg : Managed)
      → ((cr : SrlConfig) → Returns (f cr))
      → Returns (expect_srl_config mg >>= f)
  resource-Returns {f = f} mg h =
      >>=-Returns (expect_srl_config mg) f (expect_srl_config-Returns mg) (λ cr e. h cr)

  parsed-Returns :
      {B : Type 0} {f : Config → Outcome B} (text : String) (validated : Bool)
      → ((c : Config) → Returns (f c))
      → Returns (m.new_config_struct text validated >>= f)
  parsed-Returns {f = f} text validated h =
      >>=-Returns (m.new_config_struct text validated) f (R.new_config_struct text validated)
        (λ c e. h c)

  diff-Returns :
      {B : Type 0} {f : List GnmiPath × List Update → Outcome B} (a b : Config)
      → ((r : List GnmiPath × List Update) → Returns (f r))
      → Returns (m.diff a b >>= λ n. (validate_notification n >>= f))
  diff-Returns {f = f} a b h =
      >>=-Returns (m.diff a b) (λ n. (validate_notification n >>= f)) (R.diff a b)
        (λ n e. >>=-Returns (validate_notification n) f (repair-Returns n) (λ r j. h r))

  spec_diff-Returns :
      (cr : SrlConfig) (o : Option Gvk)
      → ((g : Gvk) → o ≡ some g → IsCompleteEntry g)
      → Returns (spec_diff m cr o)
  unfolding spec_diff
  spec_diff-Returns cr none h = ok-Returns _
  spec_diff-Returns cr (some g) h = parsed-Returns cr.spec.properties false (λ src.
      >>=-Returns (deref g.spec) _ (deref-Returns g.spec (h g refl).has_spec)
        (λ text e. parsed-Returns text false (λ spec. diff-Returns spec src (λ r. ok-Returns _))))

  pub get_cr_spec_diff-Returns :
      (lib : Codec) (mg : Managed) (d : SystemDevice)
      → IsComplete d
      → Returns (get_cr_spec_diff m lib mg (some d))
  unfolding get_cr_spec_diff
  get_cr_spec_diff-Returns lib mg d H = resource-Returns mg (λ cr.
      spec_diff-Returns cr (lookup (lib.get_gvk_name mg) d.gvk) (H.entries (lib.get_gvk_name mg)))

  delete_nodes-Returns : (run : Config) (ps : List GnmiPath) → Returns (delete_nodes m run ps)
  unfolding delete_nodes
  delete_nodes-Returns run [] = ok-Returns run
  delete_nodes-Returns run (p ∷ ps) =
      >>=-Returns (m.delete_node run p) _ (R.delete_node run p)
        (λ next e. delete_nodes-Returns next ps)

  module _ (mg : Managed) (running : String) where
    pub get_cr_actual_diff-Returns : Returns (get_cr_actual_diff m mg running)
    unfolding get_cr_actual_diff
    get_cr_actual_diff-Returns = resource-Returns mg (λ cr. parsed-Returns running false (λ src.
        parsed-Returns cr.spec.properties false (λ spec.
          >>=-Returns (m.deep_copy src) _ (R.deep_copy src) (λ copy e.
            >>=-Returns (m.merge_struct_into copy spec) _ (R.merge_struct_into copy spec)
              (λ new e. diff-Returns src new (λ r. ok-Returns _))))))

    pub validate_cr_spec_update-Returns : Returns (validate_cr_spec_update m mg running)
    unfolding validate_cr_spec_update
    validate_cr_spec_update-Returns = resource-Returns mg (λ cr. parsed-Returns running true (λ run.
        parsed-Returns cr.spec.properties false (λ spec.
          >>=-Returns (m.merge_overwrite_into run spec) _ (R.merge_overwrite_into run spec)
            (λ merged e. ok-Returns _))))

    pub validate_cr_spec_delete-Returns : Returns (validate_cr_spec_delete m mg running)
    unfolding validate_cr_spec_delete
    validate_cr_spec_delete-Returns = resource-Returns mg (λ cr. parsed-Returns running true (λ run.
        parsed-Returns cr.spec.properties false (λ spec.
          >>=-Returns (m.to_gnmi_notifications spec 0) _ (R.to_gnmi_notifications spec 0) (λ ns e.
            let paths = m.root_paths (add_notifications m m.create_root_config_element ns) in
            >>=-Returns (delete_nodes m run paths) _ (delete_nodes-Returns run paths)
              (λ deleted j. ok-Returns _)))))
