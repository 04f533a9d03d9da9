-- ===== src/Tests/Models.antt =====
-- A small library: configurations are numbers, a spec is the text of one, merging takes the larger.
use Prim.Native.Nat.{max}
use config_srl.Prelude.{
  ℕ, ◌≡◌, ◌↔◌, refl, ◌==◌, ◌<>◌, String, none, some, List, [], ◌∷◌, ◌++◌, map, arith, if◌then◌else◌,
  nat_eq, leb,
}
use config_srl.Prelude.Outcome.{Outcome, ok, err, foreign, ok-injective}
use config_srl.Gnmi.{GnmiPath, nil_value, json_val, string_val, other_val, Update, Notification}
use config_srl.Api.{get_metadata}
use config_srl.System.{ResourceAction, create_action, update_action, delete_action}
use config_srl.Libraries.{DeviceModel, Codec}
use config_srl.Validator.Convergence.{IsLawful}

abbrev pub path_to : String → GnmiPath
path_to name = record { target = ""; origin = ""; elem = record { name = name; key = [] } ∷ [] }

abbrev pub parse_number : String → Outcome ℕ
parse_number text =
    if text == "one" then ok 1 else if text == "{}" then ok 0 else err (foreign "not a number")

abbrev pub set_to : ℕ → Update
set_to n = record { path = path_to "number"; val = string_val (if nat_eq n 1 then "one" else "{}") }

abbrev pub changes : ℕ → ℕ → List Update
changes a b = if nat_eq a b then [] else set_to b ∷ []

abbrev pub numbers : DeviceModel
numbers = record {
  Config = ℕ;
  new_config_struct = λ text validated. parse_number text;
  json_unmarshal = parse_number;
  merge_struct_into = λ a b. ok (max a b);
  merge_overwrite_into = λ a b. ok (max a b);
  validate = λ options c. if leb c 4 then none else some "too large";
  diff = λ a b. ok (record { update = changes a b; delete = [] });
  deep_copy = λ a. ok a;
  to_gnmi_notifications = λ c time. ok (record { update = changes 0 c; delete = [] } ∷ []);
  delete_node = λ c p. ok 0;
  prune_empty_branches = λ c. c;
  RootElement = List GnmiPath;
  PathAndSchema = GnmiPath;
  create_root_config_element = [];
  get_path_and_schema_entry = λ p. p;
  add = λ rp p v. rp ++ (p ∷ []);
  config_element_hierarchy = λ n. map (λ (u : Update). u.path) n.update;
  root_paths = λ rp. rp;
}

changes-eq-nil : (a b : ℕ) → changes a b ≡ [] → a ≡ b
changes-eq-nil a b h = ground arith

changes_self : (a b : ℕ) → a ≡ b → changes a b ≡ []
changes_self a b h = ground arith

diff_law :
    (a b : ℕ) {n : Notification}
    → ◌≡◌ {A = Outcome Notification} (ok (record { update = changes a b; delete = [] })) (ok n)
    → ((n.update ≡ []) × (n.delete ≡ [])) ↔ (a ≡ b)
diff_law a b {n} h =
    rw (← ok-injective _ n h) ((λ e. changes-eq-nil a b e.0), (λ e. (changes_self a b e, refl)))

pub numbers-IsLawful : IsLawful numbers
numbers-IsLawful = record {
  diff_total = λ a b. (record { update = changes a b; delete = [] }, refl);
  diff_empty = diff_law;
  deep_copy_same = λ a. refl;
}

-- The JSON of an entry, as short as its action.
abbrev pub json_of : ResourceAction → String
json_of create_action = "create"
json_of update_action = "update"
json_of delete_action = "delete"

abbrev pub texts : Codec
texts = record {
  Value = String;
  to_xpath = λ p. elim p.elem [ [] ↦ "/" | e ∷ _ ↦ e.name ];
  get_value = λ v. elim v [
    | nil_value ↦ ok none
    | json_val s ↦ ok (some s)
    | string_val s ↦ ok (some s)
    | other_val kind s ↦ err (foreign kind)
  ];
  json_marshal = λ v. elim v [ none ↦ ok "null" | some s ↦ ok s ];
  marshal_properties = λ raw. ok raw;
  get_gvk_name = λ mg. (get_metadata mg).name;
  get_namespaced_name = λ namespace name. namespace <> ("/" <> name);
  emit_json = λ g. ok (json_of g.action);
  new_system_struct = λ text. ok none;
}
