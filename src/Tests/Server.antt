-- ===== src/Tests/Server.antt =====
-- A server that keeps a log of its writes as a text, newest first. A write is three characters of
-- the log: the name it goes to, and the name and the action of its entry.
use Prim.Native.Char.{code}
use config_srl.Prelude.{
  ℕ, ◌≡◌, refl, ◌∙◌, ap, ◌⊎◌, inl, inr, String, ◌==◌, Option, none, some, List, [], ◌∷◌,
  if◌then◌else◌, nat_eq,
}
use config_srl.Prelude.Dict.{Dict, insert}
use config_srl.Prelude.Outcome.{new, ok}
use config_srl.Gnmi.{no_path, json_val, PathElem, Update}
use config_srl.Api.{SrlConfig}
use config_srl.System.{
  ResourceAction, create_action, update_action, delete_action, Gvk, SystemDevice,
}
use config_srl.Libraries.{Codec}
use config_srl.Gvk.{gvk_path}
use config_srl.External.{replace_request, GnmiClient, system_origin, get_request, read_reply}
use config_srl.External.Set.{IsSystemCache}
use config_srl.Tests.Models.{texts}
use config_srl.Tests.Resources.{cr, entry, origins}

abbrev pub lag : SrlConfig
lag = record cr { metadata = record cr.metadata { name = "lag-1" } }

abbrev pub entry_of : String → ResourceAction → Gvk
entry_of name a = record entry { name = some name; action = a }

abbrev pub join : String → String → String
join String.[] t = t
join (String.◌∷◌ c s) t = String.◌∷◌ c (join s t)

abbrev pub action_code : ResourceAction → String
action_code create_action = "c"
action_code update_action = "u"
action_code delete_action = "d"

abbrev pub name_code : String → String
name_code name = if name == "int-e1-30" then "i" else "l"

abbrev pub name_at : ℕ → String
name_at n = if nat_eq n b'i' then "int-e1-30" else "lag-1"

abbrev pub action_at : ℕ → Option ResourceAction
action_at n =
    if nat_eq n b'c'
    then some create_action
    else if nat_eq n b'u'
    then some update_action
    else if nat_eq n b'd'
    then some delete_action
    else none

-- The JSON of an entry: the codes of its name and its action.
abbrev pub json : Gvk → String
json g = join (name_code (elim g.name [ none ↦ "" | some n ↦ n ])) (action_code g.action)

abbrev pub entry_at : ℕ → ℕ → Option Gvk
entry_at n a = elim (action_at a) [ none ↦ none | some x ↦ some (entry_of (name_at n) x) ]

abbrev pub decode : String → Option Gvk
decode (String.◌∷◌ n (String.◌∷◌ a String.[])) = entry_at (code n) (code a)
decode _ = none

abbrev pub stored : String → Option Gvk → Dict Gvk → Dict Gvk
stored name none d = d
stored name (some g) d = insert name g d

-- The entries after the writes of the log.
abbrev pub replay : String → Dict Gvk
replay (String.◌∷◌ k (String.◌∷◌ n (String.◌∷◌ a log))) =
    stored (name_at (code k)) (entry_at (code n) (code a)) (replay log)
replay _ = []

abbrev pub device : String → SystemDevice
device log = record { cache = some (record { exhausted = some 0 }); gvk = replay log }

abbrev pub log_library : Codec
log_library = record texts {
  emit_json = λ g. ok (json g);
  new_system_struct = λ text. ok (some (device text));
}

abbrev pub name_in : List PathElem → String
name_in (e ∷ _) = elim e.key [ [] ↦ "" | (_, name) ∷ _ ↦ name ]
name_in [] = ""

abbrev pub logged : List Update → String → String
logged [] log = log
logged (u ∷ _) log = elim u.val [
  | json_val text ↦ join (name_code (name_in u.path.elem)) (join text log)
  | _ ↦ log
]

abbrev pub name_of : List Update → String
name_of [] = ""
name_of (u ∷ _) = name_in u.path.elem

-- It refuses writes of one name.
abbrev pub log_server : GnmiClient
log_server = record {
  World = String;
  set = λ req w.
      if name_of req.replace == "locked"
      then (some (new "refused"), w)
      else (none, logged req.replace w);
  get = λ req w. (
    record {
      response = some (record {
        notification =
            record { update = record { path = no_path; val = json_val w } ∷ []; delete = [] } ∷ [];
      });
      error = none;
    },
    w,
  );
  close = λ w. w;
}

abbrev pub IsName : String → Type 0
IsName name = (name ≡ "int-e1-30") ⊎ (name ≡ "lag-1")

reads_device :
    (w : String)
    → read_reply log_library origins log_server
        (log_server.get (get_request log_library origins "ndd-system/leaf1" system_origin) w).0
      ≡ ok (some (some w))
unfolding read_reply
reads_device w = refl

-- A name is read back from its code.
replay-logged :
    (name text : String) (g : Gvk) (w : String)
    → IsName name
    → decode text ≡ some g
    → replay (join (name_code name) (join text w)) ≡ insert name g (replay w)
replay-logged name String.[] g w n h = cc h
replay-logged name (String.◌∷◌ c String.[]) g w n h = cc h
replay-logged name (String.◌∷◌ c (String.◌∷◌ a String.[])) g w (inl e) h =
    rw e (ap (λ o. stored "int-e1-30" o (replay w)) h)
replay-logged name (String.◌∷◌ c (String.◌∷◌ a String.[])) g w (inr e) h =
    rw e (ap (λ o. stored "lag-1" o (replay w)) h)
replay-logged name (String.◌∷◌ c (String.◌∷◌ a (String.◌∷◌ x s))) g w n h = cc h

some-injective : {A : Type 0} (a b : A) → some a ≡ some b → a ≡ b
some-injective a b h = ap (λ o. elim o [ none ↦ a | some x ↦ x ]) h

log_server-set :
    (name text : String) (w : String)
    → IsName name
    → log_server.set
        (replace_request log_library origins "ndd-system/leaf1"
          (record { path = gvk_path name; val = json_val text } ∷ []))
        w
      ≡ (none, join (name_code name) (join text w))
log_server-set name text w (inl e) = rw e refl
log_server-set name text w (inr e) = rw e refl

unfoldable pub log_server-IsSystemCache :
    IsSystemCache log_library origins log_server "ndd-system/leaf1" IsName
unfolding reads_device log_server-set replay-logged some-injective
log_server-IsSystemCache = record {
  device = λ w. some (device w);
  decode = decode;
  read = λ w. (_, some w, w, refl, reads_device w, refl, refl);
  write = λ w name text g d n h e. (
    join (name_code name) (join text w),
    log_server-set name text w n,
    ap {A = Dict Gvk} (λ x. some (record { cache = some (record { exhausted = some 0 }); gvk = x }))
          (replay-logged name text g w n h)
        ∙ ap {A = SystemDevice} (λ x. some (record x { gvk = insert name g x.gvk }))
            (some-injective (device w) d e),
  );
}

pub log_server_starts : log_server-IsSystemCache.device "" ≡ some (device "")
unfolding log_server-IsSystemCache
log_server_starts = refl
