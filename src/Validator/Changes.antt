-- ===== src/Validator/Changes.antt =====
-- What the diff to the stored spec says: it is empty exactly if the spec has not changed.
use config_srl.Prelude.{◌≡◌, refl, ◌↔◌, String, false, some, List, [], ◌∷◌, map}
use config_srl.Prelude.Dict.{lookup}
use config_srl.Prelude.Outcome.{ok}
use config_srl.Gnmi.{GnmiPath, Update}
use config_srl.Api.{SrlConfig, srl_config}
use config_srl.System.{Gvk, SystemDevice}
use config_srl.Libraries.{DeviceModel, Codec}
use config_srl.Diff.Repair.{trim, trim_update, validate_notification_lem}
use config_srl.Validator.{CrSpecDiffObservation}
use config_srl.Validator.Convergence.{IsLawful}
use config_srl.Validator.Diffs.{spec_diff, get_cr_spec_diff}

-- There is nothing to update and nothing to delete.
abbrev pub IsEmpty : CrSpecDiffObservation → Type 0
IsEmpty o = (o.updates ≡ []) × (o.deletes ≡ [])

map-eq-nil : {A B : Type 0} (f : A → B) (xs : List A) → (map f xs ≡ []) ↔ (xs ≡ [])
map-eq-nil f [] = (λ h. refl, λ h. refl)
map-eq-nil f (x ∷ xs) = (λ h. cc h, λ h. cc h)

-- The repair of a notification that names a change names one too.
repaired-IsEmpty :
    (us : List Update) (ds : List GnmiPath)
    → IsEmpty (record { deletes = map (λ p. (trim p).1) ds; updates = map trim_update us })
      ↔ ((us ≡ []) × (ds ≡ []))
repaired-IsEmpty us ds =
    let (u, u') = map-eq-nil trim_update us in
    let (d, d') = map-eq-nil (λ p. (trim p).1) ds in
    ((λ h. (u h.0, d h.1)), (λ h. (u' h.0, d' h.1)))

module _ (m : DeviceModel) (L : IsLawful m) (lib : Codec) (cr : SrlConfig)
    (system : SystemDevice) where
  -- With the laws of `IsLawful`, on a system device with an entry of the resource, and where both
  -- the spec of the resource and the one that the entry stores parse: the check succeeds, and it
  -- shows no difference exactly if the two specs parse to the same configuration.
  pub get_cr_spec_diff_correct :
      {g : Gvk} {text : String} {now stored : m.Config}
      → lookup (lib.get_gvk_name (srl_config cr)) system.gvk ≡ some g
      → g.spec ≡ some text
      → m.new_config_struct cr.spec.properties false ≡ ok now
      → m.new_config_struct text false ≡ ok stored
      → (o : CrSpecDiffObservation) × (get_cr_spec_diff m lib (srl_config cr) (some system) ≡ ok o)
        × (IsEmpty o ↔ (stored ≡ now))
  unfolding get_cr_spec_diff
  get_cr_spec_diff_correct {now = now} {stored = stored} found spec parses parses' =
      let (n, d) = L.diff_total stored now in
      let (empty, empty') = repaired-IsEmpty n.update n.delete in
      let (same, same') = L.diff_empty stored now d in
      (
        record { deletes = map (λ p. (trim p).1) n.delete; updates = map trim_update n.update },
        rw (found, spec_diff) (simp (parses, spec, parses', d, validate_notification_lem n)),
        ((λ h. same (empty h)), (λ h. empty' (same' h))),
      )
