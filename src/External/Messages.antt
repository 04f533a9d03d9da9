-- ===== src/External/Messages.antt =====
-- The gNMI messages that a server must see, field by field.
use config_srl.Prelude.{String, List, [], ◌∷◌}
use config_srl.Gnmi.{no_path, Update, SetRequest, GetRequest}
use config_srl.External.{Origin, system_origin}

module _ (origin_text : Origin → String) where
  -- A write: it replaces, and neither deletes nor updates, in the system cache of the target.
  abbrev pub system_replace : String → List Update → SetRequest
  system_replace target us = record {
    prefix = record { target = target; origin = origin_text system_origin; elem = [] };
    delete = [];
    replace = us;
    update = [];
  }

  -- A read of all that one of the two caches of the target holds, as JSON.
  abbrev pub read_all : String → Origin → GetRequest
  read_all target o = record {
    prefix = record { target = target; origin = origin_text o; elem = [] };
    path = no_path ∷ [];
    encoding = "JSON";
  }
