-- ===== src/Tests/ValidatorTests.antt =====
-- The validator, the webhook and the entries of the system cache, on the small library.
use config_srl.Prelude.{
  ℕ, ◌≡◌, refl, sym, ap, ◌↔◌, ◌⊎◌, String, true, false, none, some, List, [], ◌∷◌,
}
use config_srl.Prelude.Dict.{lookup}
use config_srl.Prelude.Outcome.{ok, err, Error, foreign, ◌>>=◌, ok-injective}
use config_srl.Gnmi.{string_val, Update}
use config_srl.Api.{SrlConfig, srl_config}
use config_srl.System.{create_action}
use config_srl.Diff.{validate_notification}
use config_srl.Validator.{
  CrObservation, no_observation, CrActualDiffObservation, get_cr_status, validate_cr_spec_update,
}
use config_srl.Validator.Diffs.{get_cr_spec_diff, get_cr_actual_diff}
use config_srl.Validator.Status.{IsVerdict, get_cr_status_correct}
use config_srl.Libraries.{DeviceModel}
use config_srl.Validator.Spec.{succeeded, refused_with, IsMerged, validate_cr_spec_update_iff}
use config_srl.Validator.Convergence.{up_to_date, get_cr_actual_diff_correct}
use config_srl.Webhook.{InvalidResource, validate_create, validate_update}
use config_srl.Webhook.Laws.{refusal, validate_create_correct, validate_cr_spec_update_admitted}
use config_srl.Gvk.{get_updates}
use config_srl.Gvk.Updates.{get_updates_lem}
use config_srl.Gvk.RoundTrip.{get_cr_spec_diff-gvk_entry}
use config_srl.Tests.Models.{path_to, numbers, numbers-IsLawful, parse_number, texts}
use config_srl.Tests.Resources.{cr, nothing_observed, entry, gvk_entry_cr, full_device}

stored_entry : lookup (texts.get_gvk_name (srl_config cr)) full_device.gvk ≡ some entry
unfolding lookup
stored_entry = refl

get_cr_status_correct_example :
    (o : CrObservation) × (get_cr_status texts (srl_config cr) (some full_device) ≡ ok o)
    × IsVerdict 0 (lookup (texts.get_gvk_name (srl_config cr)) full_device.gvk) o
unfolding lookup
get_cr_status_correct_example =
    get_cr_status_correct texts (srl_config cr) full_device (record { exhausted = some 0 }) 0 refl
      refl (λ h. cc)

-- The entry waits for its first attempt.
full_device_is_pending :
    get_cr_status texts (srl_config cr) (some full_device)
    ≡ ok (record no_observation { exists = true; pending = true })
unfolding get_cr_status lookup
full_device_is_pending = refl

get_cr_actual_diff_correct_example :
    (o : CrActualDiffObservation) × (get_cr_actual_diff numbers (srl_config cr) "{}" ≡ ok o)
    × (o.has_data ≡ true)
    × ((o.is_up_to_date ≡ true) ↔ (◌≡◌ {A = ℕ} 0 1))
get_cr_actual_diff_correct_example =
    get_cr_actual_diff_correct numbers numbers-IsLawful cr "{}" refl refl refl

-- Before it is applied, the spec of one shows as an update.
not_yet_up_to_date :
    get_cr_actual_diff numbers (srl_config cr) "{}"
    ≡ ok (up_to_date [] (record { path = path_to "number"; val = string_val "one" } ∷ []))
unfolding get_cr_actual_diff validate_notification
not_yet_up_to_date = refl

abbrev refused_cr : SrlConfig
refused_cr = record cr { spec = record cr.spec { properties = "{" } }

validate_create_correct_example :
    ((validate_create numbers refused_cr ≡ ok none)
      ↔ ((c : ℕ) × (numbers.new_config_struct refused_cr.spec.properties false ≡ ok c)))
    × ((x : InvalidResource)
        → (validate_create numbers refused_cr ≡ ok (some x)) ↔ (
            (e : Error) × (numbers.new_config_struct refused_cr.spec.properties false ≡ err e)
            × (x ≡ refusal numbers refused_cr e)))
    × (validate_update numbers refused_cr cr ≡ validate_create numbers refused_cr)
validate_create_correct_example = validate_create_correct numbers refused_cr cr

refused_cr_is_refused :
    validate_create numbers refused_cr
    ≡ ok (some (refusal numbers refused_cr (foreign "not a number")))
unfolding validate_create
refused_cr_is_refused = refl

admitted_cr : validate_create numbers cr ≡ ok none
unfolding validate_create
admitted_cr = refl

running_does_not_parse :
    validate_cr_spec_update numbers (srl_config cr) "{" ≡ err (foreign "not a number")
unfolding validate_cr_spec_update
running_does_not_parse = refl

validate_cr_spec_update_admitted_example :
    (numbers.new_config_struct "{" true ≡ err (foreign "not a number"))
    ⊎ ((run : ℕ) × (spec : ℕ) × (numbers.new_config_struct "{" true ≡ ok run)
        × (numbers.new_config_struct "one" false ≡ ok spec)
        × (numbers.merge_overwrite_into run spec ≡ err (foreign "not a number")))
validate_cr_spec_update_admitted_example =
    validate_cr_spec_update_admitted numbers cr "{" (foreign "not a number") admitted_cr
      running_does_not_parse

-- Two updates at one path: the last one stays.
abbrev twice : List Update
twice =
    record { path = path_to "mtu"; val = string_val "1500" }
    ∷ record { path = path_to "mtu"; val = string_val "9000" }
    ∷ []

get_updates_lem_example :
    (get_updates texts twice >>= λ d. ok (lookup "mtu" d))
    ≡ ok (some (record { path = some "mtu"; value = some "9000" }))
get_updates_lem_example = get_updates_lem texts twice "mtu"

same_text :
    (raw text : String)
    → texts.marshal_properties raw ≡ ok text
    → numbers.new_config_struct text false ≡ numbers.new_config_struct raw false
same_text raw text h = ap parse_number (sym (ok-injective raw text h))

get_cr_spec_diff-gvk_entry_example :
    get_cr_spec_diff numbers texts (srl_config cr) (some full_device)
    ≡ ok (record { deletes = []; updates = [] })
get_cr_spec_diff-gvk_entry_example =
    get_cr_spec_diff-gvk_entry texts numbers numbers-IsLawful same_text cr nothing_observed
      create_action full_device refl gvk_entry_cr stored_entry

-- The library of numbers with no valid configuration.
abbrev strict : DeviceModel
strict = record numbers { validate = λ options c. some "never" }

validate_cr_spec_update_iff_example :
    ((validate_cr_spec_update strict (srl_config cr) "{}" ≡ ok (succeeded))
      ↔ ((c : ℕ) × IsMerged strict cr "{}" c × (strict.validate none c ≡ none)))
    × ((text : String)
        → (validate_cr_spec_update strict (srl_config cr) "{}" ≡ ok (refused_with text))
          ↔ ((c : ℕ) × IsMerged strict cr "{}" c × (strict.validate none c ≡ some text)))
validate_cr_spec_update_iff_example = validate_cr_spec_update_iff strict cr "{}"

-- The merge of the two is one, which is refused.
strict_refuses : validate_cr_spec_update strict (srl_config cr) "{}" ≡ ok (refused_with "never")
unfolding validate_cr_spec_update
strict_refuses = refl
