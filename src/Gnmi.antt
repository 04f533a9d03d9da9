-- ===== src/Gnmi.antt =====
-- The gNMI messages that the program builds and reads (github.com/openconfig/gnmi), with the fields
-- that the source names. A getter reads a nil message like one with no field set, so a nil path or
-- notification is the empty one here.
use config_srl.Prelude.{String, List}
use config_srl.Prelude.Dict.{Dict}

-- One step of a path: a node name and, for a list entry, its keys.
pub record PathElem : Type 0 where
  pub name : String
  pub key : Dict String

pub record GnmiPath : Type 0 where
  pub target : String
  pub origin : String
  pub elem : List PathElem

abbrev pub no_path : GnmiPath
no_path = record { target = ""; origin = ""; elem = List.[] }

-- The oneof of a value: the kinds that the source names, the others by kind and text.
pub data TypedValue : Type 0 where
  nil_value : TypedValue
  json_val : String → TypedValue
  string_val : String → TypedValue
  other_val : String → String → TypedValue

-- `GetStringVal`: the empty text if another kind is set.
abbrev pub get_string_val : TypedValue → String
get_string_val (string_val s) = s
get_string_val _ = ""

pub record Update : Type 0 where
  pub path : GnmiPath
  pub val : TypedValue

pub record Notification : Type 0 where
  pub update : List Update
  pub delete : List GnmiPath

pub record SetRequest : Type 0 where
  pub prefix : GnmiPath
  pub delete : List GnmiPath
  pub replace : List Update
  pub update : List Update

pub record GetRequest : Type 0 where
  pub prefix : GnmiPath
  pub path : List GnmiPath
  pub encoding : String

pub record GetResponse : Type 0 where
  pub notification : List Notification
