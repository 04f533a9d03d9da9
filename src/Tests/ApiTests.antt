-- ===== src/Tests/ApiTests.antt =====
-- Pointers into a list of two resources, and pointers to copies of them.
use config_srl.Prelude.{ℕ, ◌≡◌, ◌≢◌, refl, none, some, [], ◌∷◌}
use config_srl.Prelude.Lists.{get_elem?}
use config_srl.Api.{SrlConfig}
use config_srl.Api.Objects.{
  Objects, Pointer, item, copy, load, modify, get_items, get_configs, set_deployment_policy,
  set_deletion_policy, set_target_reference, set_root_paths,
}
use config_srl.Api.Objects.Aliasing.{pointers-modify}
use config_srl.Tests.Resources.{cr}

abbrev second_cr : SrlConfig
second_cr = record cr { metadata = record cr.metadata { name = "int-e1-31" } }

abbrev objects : Objects
objects = record { items = cr ∷ second_cr ∷ []; copies = [] }

pointers-modify_example :
    ((p : Pointer) × (get_elem? (get_items objects) 1 ≡ some p)
      × (load p objects ≡ some second_cr)
      × ((f : SrlConfig → SrlConfig)
          → (get_elem? (modify p f objects).items 1 ≡ some (f second_cr))
            × ((j : ℕ)
                → j ≢ 1
                → get_elem? (modify p f objects).items j ≡ get_elem? objects.items j)))
    × ((p : Pointer) × (get_elem? (get_configs objects).0 1 ≡ some p)
        × (load p (get_configs objects).1 ≡ some second_cr)
        × ((f : SrlConfig → SrlConfig)
            → (load p (modify p f (get_configs objects).1) ≡ some (f second_cr))
              × ((modify p f (get_configs objects).1).items ≡ objects.items)))
pointers-modify_example = pointers-modify objects 1 refl

setters :
    set_target_reference none (set_deletion_policy "orphan" (set_deployment_policy "planned" cr))
    ≡ record cr {
      spec = record cr.spec {
        lifecycle = record { deployment_policy = "planned"; deletion_policy = "orphan" };
        target_reference = none;
      };
    }
setters = refl

-- New root paths reach the list through an item.
root_paths_reach_list :
    (modify (item 1) (set_root_paths []) objects).items ≡ cr ∷ set_root_paths [] second_cr ∷ []
root_paths_reach_list = refl

items_are_pointers : get_items objects ≡ item 0 ∷ item 1 ∷ []
unfolding get_items
items_are_pointers = refl

configs_are_copies : (get_configs objects).0 ≡ copy 0 ∷ copy 1 ∷ []
unfolding get_configs
configs_are_copies = refl
