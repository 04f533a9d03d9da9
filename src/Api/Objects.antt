-- ===== src/Api/Objects.antt =====
-- `GetItems` of apis/srl/v1alpha1/zz_generated.managedlist.go and `GetConfigs` of
-- srlconfig_interfaces.go: both give pointers, the one into the list and the other to copies. The
-- setters of zz_generated.managed.go write through such a pointer.
pub mod Aliasing
use config_srl.Prelude.{ℕ, zero, suc, String, Option, some, List, [], ◌∷◌, ◌++◌}
use config_srl.Prelude.Lists.{length, get_elem?}
use config_srl.Api.{Reference, SrlConfig}

-- The resources of one list, and the resources that were copied out of it, in order of allocation.
pub record Objects : Type 0 where
  pub items : List SrlConfig
  pub copies : List SrlConfig

-- A pointer to a resource: to the list's element at an index, or to a copy.
pub data Pointer : Type 0 where
  item copy : ℕ → Pointer

abbrev pub load : Pointer → Objects → Option SrlConfig
load (item i) s = get_elem? s.items i
load (copy i) s = get_elem? s.copies i

abbrev pub modify_elem : (SrlConfig → SrlConfig) → ℕ → List SrlConfig → List SrlConfig
modify_elem f i [] = []
modify_elem f zero (x ∷ xs) = f x ∷ xs
modify_elem f (suc i) (x ∷ xs) = x ∷ modify_elem f i xs

-- A call of a setter on what the pointer leads to.
abbrev pub modify : Pointer → (SrlConfig → SrlConfig) → Objects → Objects
modify (item i) f s = record s { items = modify_elem f i s.items }
modify (copy i) f s = record s { copies = modify_elem f i s.copies }

-- `&l.Items[i]` for each index, from `i` on.
pub items_from : ℕ → List SrlConfig → List Pointer
items_from i [] = []
items_from i (x ∷ xs) = item i ∷ items_from (suc i) xs

unfoldable pub get_items : Objects → List Pointer
unfolding items_from
get_items s = items_from 0 s.items

-- `r := r` allocates a copy in each turn of the loop.
pub configs_from : List SrlConfig → List SrlConfig → List Pointer × List SrlConfig
configs_from [] copies = ([], copies)
configs_from (x ∷ xs) copies =
    let (pointers, all) = configs_from xs (copies ++ (x ∷ [])) in
    (copy (length copies) ∷ pointers, all)

unfoldable pub get_configs : Objects → List Pointer × Objects
unfolding configs_from
get_configs s =
    let (pointers, all) = configs_from s.items s.copies in (pointers, record s { copies = all })

-- The setters of a resource.
abbrev pub set_deployment_policy : String → SrlConfig → SrlConfig
set_deployment_policy b x = record x {
  spec = record x.spec { lifecycle = record x.spec.lifecycle { deployment_policy = b } };
}

abbrev pub set_deletion_policy : String → SrlConfig → SrlConfig
set_deletion_policy r x = record x {
  spec = record x.spec { lifecycle = record x.spec.lifecycle { deletion_policy = r } };
}

abbrev pub set_target_reference : Option Reference → SrlConfig → SrlConfig
set_target_reference r x = record x { spec = record x.spec { target_reference = r } }

abbrev pub set_root_paths : List String → SrlConfig → SrlConfig
set_root_paths n x = record x { status = record x.status { root_paths = n } }
