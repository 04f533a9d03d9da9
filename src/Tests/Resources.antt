-- ===== src/Tests/Resources.antt =====
-- A resource, the entry that is written for it, and a server that keeps the entry.
use mathlib.Core.Option
use config_srl.Prelude.{
  inl, inr, Option-cases, List, ◌≡◌, refl, ap, sym, ◌==◌, String, Option, none, some, [], ◌∷◌,
  if◌then◌else◌,
}
use config_srl.Prelude.Dict.{insert}
use config_srl.Prelude.Outcome.{ok}
use config_srl.Gnmi.{Update, no_path, json_val}
use config_srl.Api.{SrlConfig, srl_config}
use config_srl.System.{
  ResourceAction, update_action, delete_action, create_action, pending, Gvk, SystemDevice,
}
use config_srl.Libraries.{Codec}
use config_srl.Gvk.{ExternalObservation, gvk_entry}
use config_srl.External.{GnmiClient, Origin, system_origin, config_origin, get_request, read_reply}
use config_srl.External.Set.{IsSystemCache}
use config_srl.Tests.Models.{texts, json_of}

abbrev pub cr : SrlConfig
cr = record {
  metadata = record { name = "int-e1-30"; namespace = "ndd-system"; labels = [] };
  spec = record {
    lifecycle = record { deployment_policy = "active"; deletion_policy = "delete" };
    target_reference = some (record { name = "leaf1" });
    properties = "one";
  };
  status = record { conditions = []; health = ""; root_paths = "/interface" ∷ [] };
}

abbrev pub nothing_observed : ExternalObservation
nothing_observed = record { deletes = none; updates = none }

-- The entry that a creation of `cr` writes.
abbrev pub entry : Gvk
entry = record {
  name = some "int-e1-30";
  action = create_action;
  path = "/interface" ∷ [];
  status = pending;
  reason = some "";
  spec = some "one";
  delete = [];
  update = [];
  attempt = some 0;
}

pub gvk_entry_cr : gvk_entry texts (srl_config cr) nothing_observed create_action ≡ ok entry
unfolding gvk_entry
gvk_entry_cr = refl

abbrev pub empty_device : SystemDevice
empty_device = record { cache = some (record { exhausted = some 0 }); gvk = [] }

abbrev pub full_device : SystemDevice
full_device = record {
  cache = some (record { exhausted = some 0 });
  gvk = ("int-e1-30", entry) ∷ [];
}

abbrev pub entry_for : ResourceAction → Gvk
entry_for a = record entry { action = a }

-- The device of a server, by the action of the entry that was written last.
abbrev pub device_of : Option ResourceAction → SystemDevice
device_of none = empty_device
device_of (some a) = record empty_device { gvk = ("int-e1-30", entry_for a) ∷ [] }

abbrev pub text_of : Option ResourceAction → String
text_of none = "empty"
text_of (some a) = json_of a

abbrev pub action_of : String → Option ResourceAction
action_of text =
    if text == "create"
    then some create_action
    else if text == "update"
    then some update_action
    else if text == "delete"
    then some delete_action
    else none

abbrev pub library : Codec
library = record texts { new_system_struct = λ text. ok (some (device_of (action_of text))) }

abbrev pub origins : Origin → String
origins system_origin = "system"
origins config_origin = "config"

abbrev taken : Option ResourceAction → Option ResourceAction → Option ResourceAction
taken none w = w
taken (some a) w = some a

abbrev replaced : List Update → Option ResourceAction → Option ResourceAction
replaced [] w = w
replaced (u ∷ _) w = elim u.val [ json_val text ↦ taken (action_of text) w | _ ↦ w ]

-- It stores the entry of a replacement, and answers a read with its device.
abbrev pub server : GnmiClient
server = record {
  World = Option ResourceAction;
  set = λ req w. (none, replaced req.replace w);
  get = λ req w. (
    record {
      response = some (record {
        notification =
            record {
              update = record { path = no_path; val = json_val (text_of w) } ∷ [];
              delete = [];
            }
            ∷ [];
      });
      error = none;
    },
    w,
  );
  close = λ w. w;
}

abbrev pub Kept : String → Type 0
Kept name = name ≡ "int-e1-30"

pub gvk_entry-library :
    (a : ResourceAction) → gvk_entry library (srl_config cr) nothing_observed a ≡ ok (entry_for a)
unfolding gvk_entry
gvk_entry-library a = refl

reads_device :
    (w : Option ResourceAction)
    → read_reply library origins server
        (server.get (get_request library origins "ndd-system/leaf1" system_origin) w).0
      ≡ ok (some (some (text_of w)))
unfolding read_reply
reads_device none = refl
reads_device (some a) = refl

action-text : (w : Option ResourceAction) → action_of (text_of w) ≡ w
action-text none = refl
action-text (some create_action) = refl
action-text (some update_action) = refl
action-text (some delete_action) = refl

some-injective : {A : Type 0} (a b : A) → some a ≡ some b → a ≡ b
some-injective a b h = ap (λ o. elim o [ none ↦ a | some x ↦ x ]) h

-- The device after an entry is stored.
stored :
    (w : Option ResourceAction) (a : ResourceAction) (name : String) (g : Gvk) (d : SystemDevice)
    → name ≡ "int-e1-30"
    → g ≡ entry_for a
    → d ≡ device_of w
    → some (device_of (some a)) ≡ some (record d { gvk = insert name g d.gvk })
unfolding insert
stored none a name g d n e h = rw (h, e, n) refl
stored (some b) a name g d n e h = rw (h, e, n) refl

pub server-IsSystemCache : IsSystemCache library origins server "ndd-system/leaf1" Kept
server-IsSystemCache = record {
  device = λ w. some (device_of w);
  decode = λ text. Option.map entry_for (action_of text);
  read = λ w. (_, some (text_of w), text_of w, refl, reads_device w, refl, rw (action-text w));
  write = λ w name text g d kept e h. elim (Option-cases (action_of text)) [
    | inl nil ↦ cc (rw nil at e)
    | inr (a, f) ↦ (
      some a,
      ap (λ o. (none, taken o w)) f,
      stored w a name g d kept (sym (some-injective _ g (rw f at e))) (sym (some-injective _ d h)),
    )
  ];
}

pub server_decodes :
    (a : ResourceAction) → server-IsSystemCache.decode (json_of a) ≡ some (entry_for a)
unfolding server-IsSystemCache
server_decodes a = rw (action-text (some a))

pub server_starts : server-IsSystemCache.device none ≡ some empty_device
unfolding server-IsSystemCache
server_starts = refl
