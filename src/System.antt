-- ===== src/System.antt =====
-- github.com/yndd/nddp-system/pkg/ygotnddp, the system cache's data, with the fields that the source
-- names. A pointer field is an option.
use config_srl.Prelude.{ℕ, String, Option, List}
use config_srl.Prelude.Dict.{Dict}

-- E_YnddSystem_ResourceAction
pub data ResourceAction : Type 0 where
  create_action update_action delete_action : ResourceAction

-- E_YnddSystem_ResourceStatus
pub data ResourceStatus : Type 0 where
  pending failed other_status : ResourceStatus

-- YnddSystem_Gvk_Update
pub record GvkUpdate : Type 0 where
  pub path : Option String
  pub value : Option String

-- YnddSystem_Gvk: the entry of one resource.
pub record Gvk : Type 0 where
  pub name : Option String
  pub action : ResourceAction
  pub path : List String
  pub status : ResourceStatus
  pub reason : Option String
  pub spec : Option String
  pub delete : List String
  pub update : Dict GvkUpdate
  pub attempt : Option ℕ

-- YnddSystem_Cache
pub record SystemCache : Type 0 where
  pub exhausted : Option ℕ

-- ygotnddp.Device; its map holds no nil entry.
pub record SystemDevice : Type 0 where
  pub cache : Option SystemCache
  pub gvk : Dict Gvk
