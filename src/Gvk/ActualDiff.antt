-- ===== src/Gvk/ActualDiff.antt =====
-- The entry of a resource, from the diff to the running configuration that it was observed with.
use config_srl.Prelude.{String, ◌≡◌, sym, ◌∙◌, ap, none, some, List, map, false}
use config_srl.Prelude.Dict.{Dict, lookup}
use config_srl.Prelude.Outcome.{ok, >>=-eq-ok, ok-injective, ◌>>=◌}
use config_srl.Gnmi.{Update, Notification}
use config_srl.Api.{SrlConfig, srl_config}
use config_srl.System.{ResourceAction, GvkUpdate, Gvk}
use config_srl.Libraries.{DeviceModel, Codec}
use config_srl.Diff.{validate_notification}
use config_srl.Diff.Repair.{trim, trim_update, validate_notification_lem}
use config_srl.Validator.{CrActualDiffObservation}
use config_srl.Validator.Diffs.{get_cr_actual_diff}
use config_srl.Gvk.{ExternalObservation, get_spec, get_updates, get_paths, gvk_entry}
use config_srl.Gvk.Updates.{encoded, last_entry, get_updates_lem}

-- The observation with what the check found.
abbrev pub observe_diff : CrActualDiffObservation → ExternalObservation
observe_diff o = record { deletes = some o.deletes; updates = some o.updates }

module _ (m : DeviceModel) (lib : Codec) where
  -- A check that succeeded, by the notification that ygot gave.
  get_cr_actual_diff-eq-ok :
      (cr : SrlConfig) (running_cfg : String) (o : CrActualDiffObservation)
      → get_cr_actual_diff m (srl_config cr) running_cfg ≡ ok o
      → (running : m.Config) × (spec : m.Config) × (copy : m.Config) × (merged : m.Config)
        × (n : Notification) × (m.new_config_struct running_cfg false ≡ ok running)
        × (m.new_config_struct cr.spec.properties false ≡ ok spec)
        × (m.deep_copy running ≡ ok copy)
        × (m.merge_struct_into copy spec ≡ ok merged)
        × (m.diff running merged ≡ ok n)
        × (o.deletes ≡ map (λ p. (trim p).1) n.delete)
        × (o.updates ≡ map trim_update n.update)
  unfolding get_cr_actual_diff
  get_cr_actual_diff-eq-ok cr running_cfg o h =
      let (running, e1, h1) = >>=-eq-ok (m.new_config_struct running_cfg false) _ h in
      let (spec, e2, h2) = >>=-eq-ok (m.new_config_struct cr.spec.properties false) _ h1 in
      let (copy, e3, h3) = >>=-eq-ok (m.deep_copy running) _ h2 in
      let (merged, e4, h4) = >>=-eq-ok (m.merge_struct_into copy spec) _ h3 in
      let (n, e5, h5) = >>=-eq-ok (m.diff running merged) _ h4 in
      let (r, e6, h6) = >>=-eq-ok (validate_notification n) _ h5 in
      let repaired = ok-injective _ r (sym (validate_notification_lem n) ∙ e6) in
      let seen = ok-injective _ o h6 in
      (
        running,
        spec,
        copy,
        merged,
        n,
        e1,
        e2,
        e3,
        e4,
        e5,
        sym (ap (λ x. x.deletes) seen) ∙ sym (ap (λ x. x.0) repaired),
        sym (ap (λ x. x.updates) seen) ∙ sym (ap (λ x. x.1) repaired),
      )

  gvk_entry-observe_diff :
      (cr : SrlConfig) (o : CrActualDiffObservation) (action : ResourceAction) (entry : Gvk)
      → gvk_entry lib (srl_config cr) (observe_diff o) action ≡ ok entry
      → (entry.delete ≡ map lib.to_xpath o.deletes) × (get_updates lib o.updates ≡ ok entry.update)
  unfolding gvk_entry get_paths
  gvk_entry-observe_diff cr o action entry g =
      let (spec, _, g1) = >>=-eq-ok (get_spec lib (srl_config cr)) _ g in
      let (updates, made, g2) = >>=-eq-ok (get_updates lib o.updates) _ g1 in
      let e = ok-injective _ entry g2 in
      (sym (ap (λ x. x.delete) e), made ∙ ap (λ x. ok x.update) e)

  -- The entry's updates, key by key.
  get_updates-last_entry :
      (us : List Update) (d : Dict GvkUpdate)
      → get_updates lib us ≡ ok d
      → (ps : List (String × String)) × (encoded lib us ≡ ok ps)
        × ((x : String) → lookup x d ≡ last_entry x none ps)
  get_updates-last_entry us d h =
      let (ps, e, _) = >>=-eq-ok (encoded lib us) _ (at "") in
      (
        ps,
        e,
        λ x. sym (
            ok-injective (last_entry x none ps) (lookup x d)
              (ap (λ r. (r >>= λ qs. ok (last_entry x none qs))) (sym e) ∙ at x)),
      )
    where
      at : (x : String) → (encoded lib us >>= λ ps. ok (last_entry x none ps)) ≡ ok (lookup x d)
      at x = sym (get_updates_lem lib us x) ∙ ap (λ r. (r >>= λ e. ok (lookup x e))) h

  -- If the check against a running configuration succeeds, and an entry is made for the resource with
  -- what was found: the spec parsed and was merged into a copy of the running configuration, ygot
  -- gave a notification of the changes to that merge, and the entry holds just these changes. Its
  -- deletes are, in order, those of the notification with their paths trimmed, as texts; and its
  -- updates, which all encode, are those of the notification with their paths trimmed, of several
  -- at one path the last one.
  pub gvk_entry-get_cr_actual_diff :
      (cr : SrlConfig) (running_cfg : String) (o : CrActualDiffObservation)
      (action : ResourceAction) (entry : Gvk)
      → get_cr_actual_diff m (srl_config cr) running_cfg ≡ ok o
      → gvk_entry lib (srl_config cr) (observe_diff o) action ≡ ok entry
      → (running : m.Config) × (spec : m.Config) × (copy : m.Config) × (merged : m.Config)
        × (n : Notification) × (ps : List (String × String)) × (m.new_config_struct running_cfg
              false
            ≡ ok running)
        × (m.new_config_struct cr.spec.properties false ≡ ok spec)
        × (m.deep_copy running ≡ ok copy)
        × (m.merge_struct_into copy spec ≡ ok merged)
        × (m.diff running merged ≡ ok n)
        × (entry.delete ≡ map lib.to_xpath (map (λ p. (trim p).1) n.delete))
        × (encoded lib (map trim_update n.update) ≡ ok ps)
        × ((x : String) → lookup x entry.update ≡ last_entry x none ps)
  gvk_entry-get_cr_actual_diff cr running_cfg o action entry h g =
      let (running, spec, copy, merged, n, e1, e2, e3, e4, e5, deletes, updates) =
        get_cr_actual_diff-eq-ok cr running_cfg o h in
      let (deleted, made) = gvk_entry-observe_diff cr o action entry g in
      let (ps, encodes, held) = get_updates-last_entry o.updates entry.update made in
      (
        running,
        spec,
        copy,
        merged,
        n,
        ps,
        e1,
        e2,
        e3,
        e4,
        e5,
        deleted ∙ ap (λ ds. map lib.to_xpath ds) deletes,
        ap (λ us. encoded lib us) (sym updates) ∙ encodes,
        held,
      )
