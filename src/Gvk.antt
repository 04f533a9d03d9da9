-- ===== src/Gvk.antt =====
-- internal/controllers/srl/utilsgvk.go: the entry of a resource in the system cache.
pub mod Updates
pub mod RoundTrip
pub mod ActualDiff
use config_srl.Prelude.{String, Option, none, some, List, [], ◌∷◌, map}
use config_srl.Prelude.Dict.{Dict, insert}
use config_srl.Prelude.Outcome.{Outcome, ok, wrap_err, ◌>>=◌}
use config_srl.Gnmi.{PathElem, GnmiPath, TypedValue, json_val, Update}
use config_srl.Api.{Managed, get_root_paths}
use config_srl.System.{ResourceAction, pending, GvkUpdate, Gvk}
use config_srl.Libraries.{Codec}
use config_srl.Validator.{expect_srl_config}

-- managed.ExternalObservation, the fields that are read; a nil slice is `none`.
pub record ExternalObservation : Type 0 where
  pub deletes : Option (List GnmiPath)
  pub updates : Option (List Update)

abbrev pub cannot_marshal : String
cannot_marshal = "cannot marshal JSON object"

-- `{gvk[name=…]}`, where the system cache keeps the entry of a resource.
abbrev pub gvk_path : String → GnmiPath
gvk_path name = record {
  target = "";
  origin = "";
  elem = record { name = "gvk"; key = ("name", name) ∷ [] } ∷ [];
}

module _ (lib : Codec) where
  open lib use {to_xpath, get_value, json_marshal, marshal_properties, get_gvk_name, emit_json}

  unfoldable pub get_spec : Managed → Outcome String
  get_spec mg = do
    cr ← expect_srl_config mg
    wrap_err cannot_marshal (marshal_properties cr.spec.properties)

  unfoldable pub get_paths : List GnmiPath → List String
  get_paths paths = map to_xpath paths

  -- The value of an update as JSON.
  abbrev pub encode : TypedValue → Outcome String
  encode value = get_value value >>= λ v. json_marshal v

  -- The loop of `getUpdates`, from the map filled so far.
  unfoldable pub get_updates_from : Dict GvkUpdate → List Update → Outcome (Dict GvkUpdate)
  get_updates_from updates [] = ok updates
  get_updates_from updates (u ∷ us) = do
    let xpath = to_xpath u.path
    val ← encode u.val
    get_updates_from (insert xpath (record { path = some xpath; value = some val }) updates) us

  unfoldable pub get_updates : List Update → Outcome (Dict GvkUpdate)
  unfolding get_updates_from
  get_updates us = get_updates_from [] us

  -- `if obs.Updates != nil` and `if obs.Deletes != nil`
  abbrev pub observed_updates : Option (List Update) → Outcome (Dict GvkUpdate)
  observed_updates none = ok []
  observed_updates (some us) = get_updates us

  abbrev observed_deletes : Option (List GnmiPath) → List String
  observed_deletes none = []
  observed_deletes (some ps) = get_paths ps

  -- The entry that `getGvkUpate` makes.
  unfoldable pub gvk_entry : Managed → ExternalObservation → ResourceAction → Outcome Gvk
  unfolding get_spec get_updates get_paths
  gvk_entry mg obs action = do
    spec ← get_spec mg
    updates ← observed_updates obs.updates
    ok (record {
      name = some (get_gvk_name mg);
      action = action;
      path = get_root_paths mg;
      status = pending;
      reason = some "";
      spec = some spec;
      delete = observed_deletes obs.deletes;
      update = updates;
      attempt = some 0;
    })

  -- `getGvkUpate`: one update, of the entry at its path.
  unfoldable pub get_gvk_update :
      Managed → ExternalObservation → ResourceAction → Outcome (List Update)
  unfolding gvk_entry
  get_gvk_update mg obs action = do
    entry ← gvk_entry mg obs action
    text ← emit_json entry
    ok (record { path = gvk_path (get_gvk_name mg); val = json_val text } ∷ [])
