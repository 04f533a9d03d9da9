-- ===== src/Tests/TargetTests.antt =====
-- The driver on a target that answers with fixed responses, and the watcher on a set of requests.
use mathlib.Core.List.{flat_map}
use config_srl.Prelude.{
  ◌≡◌, refl, sym, ap, ◌∙◌, ◌↔◌, ◌⊎◌, inl, inr, fun_ext, String, ◌==◌, eq_iff, eq_refl, Bool, true,
  false, ◌&&◌, ◌||◌, Option, some, List, [], ◌∷◌, arith, Bool-cases,
}
use config_srl.Prelude.Outcome.{Outcome, ok}
use config_srl.Gnmi.{no_path, string_val, get_string_val, Update, GetRequest, GetResponse}
use config_srl.Api.{srl_config}
use config_srl.Target.{GnmiTarget, get_config, discover}
use config_srl.Target.Discovery.{discover_lem}
use config_srl.Target.Config.{Single, get_config_iff}
use config_srl.Watcher.{Request, Adder, Event, create_event, update_event, request_of}
use config_srl.Watcher.Laws.{IsWorkQueue, Names, all_resources, handle_all, handle_all-Waiting}
use config_srl.Tests.Resources.{cr}

abbrev at : String → String → Update
at xpath text = record {
  path = record { target = ""; origin = ""; elem = record { name = xpath; key = [] } ∷ [] };
  val = string_val text;
}

abbrev platform : GetResponse
platform = record {
  notification =
      record {
        update =
            at "platform/control/software-version" ""
            ∷ at "platform/control/software-version" "v21.11.1"
            ∷ at "platform/chassis/type" "7220 IXR-D3"
            ∷ [];
        delete = [];
      }
      ∷ record {
        update =
            at "platform/control/software-version" "v0.0.0"
            ∷ at "platform/chassis/serial-number" "Sim Serial No."
            ∷ [];
        delete = [];
      }
      ∷ [];
}

abbrev request : GetRequest
request = record { prefix = no_path; path = no_path ∷ []; encoding = "JSON" }

-- A target that answers every read with `response`.
abbrev answering : GetResponse → GnmiTarget
answering response = record {
  World = Unit {0};
  Value = String;
  CapabilityResponse = Unit {0};
  SetResponse = Unit {0};
  new_get_request = λ options. ok request;
  capabilities = λ w. (ok tt, w);
  get = λ req w. (ok response, w);
  set = λ req w. (ok tt, w);
  get_value = λ v. ok (some (get_string_val v));
  to_xpath = λ p. elim p.elem [ [] ↦ "/" | e ∷ _ ↦ e.name ];
}

discover_lem_example :
    (discover (answering platform) "nokia-srl" tt).0
    ≡ ok (record {
      vendor_type = "nokia-srl";
      sw_version = "v21.11.1";
      platform = "7220 IXR-D3";
      serial_number = "Sim Serial No.";
      mac_address = "";
    })
unfolding flat_map
discover_lem_example = discover_lem (answering platform) "nokia-srl" tt request refl

abbrev one_update : GetResponse
one_update = record { notification = record { update = at "/" "{}" ∷ []; delete = [] } ∷ [] }

get_config_iff_example : ((get_config (answering one_update) "nokia-srl" tt).0 ≡ ok (some "{}")) ↔ (
    (rsp : GetResponse) × (u : Update) × (◌≡◌ {A = Outcome GetResponse} (ok one_update) (ok rsp))
    × Single (answering one_update) "nokia-srl" rsp.notification u
    × (◌≡◌ {A = Outcome (Option String)} (ok (some (get_string_val u.val))) (ok (some "{}"))))
get_config_iff_example =
    get_config_iff (answering one_update) "nokia-srl" tt request refl (some "{}")

one_update_is_read : (get_config (answering one_update) "nokia-srl" tt).0 ≡ ok (some "{}")
unfolding get_config
one_update_is_read = refl

abbrev same : Request → Request → Bool
same r s = (r.namespace == s.namespace) && (r.name == s.name)

same_iff : (r s : Request) → (same r s ≡ true) ↔ (r ≡ s)
same_iff r s = (forwards, λ h. simp (h, eq_refl))
  where
    forwards : same r s ≡ true → r ≡ s
    forwards h =
        let a : r.namespace ≡ s.namespace = (eq_iff r.namespace s.namespace).0 (ground arith) in
        let b : r.name ≡ s.name = (eq_iff r.name s.name).0 (ground arith) in
        λ i. record { namespace = a i; name = b i }

-- The queue as the set of its requests.
abbrev request_set : Adder
request_set = record { Queue = Request → Bool; add = λ s q r. same r s || q r }

add_same : (r : Request) (q : Request → Bool) (x : Request) → q r ≡ true → (same x r || q x) ≡ q x
add_same r q x h = elim (Bool-cases (same x r)) [
  | inl e ↦ rw e (sym (ap q ((same_iff x r).0 e) ∙ h))
  | inr e ↦ rw e
]

waits : (r s : Request) (q : Request → Bool) → ((same r s || q r) ≡ true) ↔ ((r ≡ s) ⊎ (q r ≡ true))
waits r s q = (
  λ h. elim (Bool-cases (same r s)) [ inl e ↦ inl ((same_iff r s).0 e) | inr e ↦ inr (rw e at h) ],
  λ h. elim h [ inl e ↦ rw ((same_iff r s).1 e) | inr e ↦ ground arith ],
)

request_set-IsWorkQueue : IsWorkQueue request_set
request_set-IsWorkQueue = record {
  Waiting = λ r q. q r ≡ true;
  waiting_add = waits;
  add_waiting = λ r q h. fun_ext (λ x. add_same r q x h);
}

abbrev nothing_waits : Request → Bool
nothing_waits r = false

abbrev events : List Event
events = create_event (srl_config cr) ∷ update_event (srl_config cr) (srl_config cr) ∷ []

handle_all-Waiting_example :
    (handle_all request_set events nothing_waits (request_of cr) ≡ true)
    ↔ (Names (request_of cr) (all_resources events) ⊎ (◌≡◌ {A = Bool} false true))
unfolding request_set-IsWorkQueue
handle_all-Waiting_example =
    handle_all-Waiting request_set request_set-IsWorkQueue events (request_of cr) nothing_waits
