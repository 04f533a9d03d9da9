-- ===== src/Validator/Convergence.antt =====
-- What the diff to the running configuration says: when a resource is up to date. The laws that this
-- rests on are documented behaviour of ygot, and are the fields of `IsLawful`.
use config_srl.Prelude.{
  ◌≡◌, refl, ◌↔◌, String, true, false, List, [], ◌∷◌, map, ◌&&◌, arith, is_empty,
}
use config_srl.Prelude.Outcome.{ok}
use config_srl.Gnmi.{GnmiPath, Update, Notification}
use config_srl.Api.{SrlConfig, srl_config}
use config_srl.Libraries.{DeviceModel}
use config_srl.Diff.Repair.{trim, trim_update, validate_notification_lem}
use config_srl.Validator.{CrActualDiffObservation}
use config_srl.Validator.Diffs.{get_cr_actual_diff}

pub record IsLawful (m : DeviceModel) : Type 0 where
  -- `Diff` returns, and names no change exactly for equal structs.
  pub diff_total : (a b : m.Config) → (n : Notification) × (m.diff a b ≡ ok n)
  pub diff_empty :
      (a b : m.Config) {n : Notification}
      → m.diff a b ≡ ok n
      → ((n.update ≡ []) × (n.delete ≡ [])) ↔ (a ≡ b)
  pub deep_copy_same : (a : m.Config) → m.deep_copy a ≡ ok a

abbrev pub up_to_date : List GnmiPath → List Update → CrActualDiffObservation
up_to_date ds us = record {
  has_data = true;
  is_up_to_date = is_empty ds && is_empty us;
  deletes = ds;
  updates = us;
}

no_change :
    (ds : List GnmiPath) (us : List Update)
    → (is_empty (map (λ p. (trim p).1) ds) && is_empty (map trim_update us) ≡ true)
      ↔ ((us ≡ []) × (ds ≡ []))
no_change [] [] = ground arith
no_change [] (u ∷ us) = ground arith
no_change (d ∷ ds) us = ground arith

both : {A B C : Type 0} → A ↔ B → B ↔ C → A ↔ C
both p q = ((λ a. q.0 (p.0 a)), λ c. p.1 (q.1 c))

module _ (m : DeviceModel) (L : IsLawful m) (cr : SrlConfig) (running_cfg : String) where
  -- With the laws of `IsLawful`, and where the parses and the merge succeed, the check succeeds,
  -- and the resource counts as up to date exactly if merging its spec leaves the running
  -- configuration as it is.
  pub get_cr_actual_diff_correct :
      {running spec merged : m.Config}
      → m.new_config_struct running_cfg false ≡ ok running
      → m.new_config_struct cr.spec.properties false ≡ ok spec
      → m.merge_struct_into running spec ≡ ok merged
      → (o : CrActualDiffObservation) × (get_cr_actual_diff m (srl_config cr) running_cfg ≡ ok o)
        × (o.has_data ≡ true)
        × ((o.is_up_to_date ≡ true) ↔ (running ≡ merged))
  unfolding get_cr_actual_diff
  get_cr_actual_diff_correct {running} {spec} {merged} e f g =
      let (n, d) = L.diff_total running merged in
      (
        up_to_date (map (λ p. (trim p).1) n.delete) (map trim_update n.update),
        rw (e, f, L.deep_copy_same running, g, d, validate_notification_lem n),
        refl,
        both (no_change n.delete n.update) (L.diff_empty running merged d),
      )
