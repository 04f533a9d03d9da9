-- ===== src/Api/Copies/Laws.antt =====
-- The deep copies of the program, given that the libraries' parts are copied as documented.
use config_srl.Prelude.{ℕ, ◌≤◌, ◌<◌, ◌≡◌, refl, Option, none, some, List}
use config_srl.Prelude.Lists.{length, All}
use config_srl.Api.Copies.{
  Parts, TypeMeta, StoredSpec, StoredStatus, StoredConfig, StoredList, spec_into, status_into,
  config_into, configs_into, items_into, list_into, deep_copy, deep_copy_config, deep_copy_list,
}
use config_srl.Api.Copies.Writes.{write_all, write_new-view, write_old-view}
use config_srl.Api.Copies.Shapes.{
  Shape, Valid, Copied, Copies, constant, by, both, Copies-both, Copies-constant, Copies-by,
}
use config_srl.Api.Copies.Containers.{listed, optional, Copies-listed, Copied-some, Copied-none}

-- The types of the libraries are copied deeply.
pub record IsDeep (parts : Parts) : Type 1 where
  pub object_meta : Shape parts.Cell parts.ObjectMeta
  pub list_meta : Shape parts.Cell parts.ListMeta
  pub resource_spec : Shape parts.Cell parts.ResourceSpec
  pub raw_extension : Shape parts.Cell parts.RawExtension
  pub resource_status : Shape parts.Cell parts.ResourceStatus
  pub object_meta-Copies : Copies object_meta parts.copy_object_meta
  pub list_meta-Copies : Copies list_meta parts.copy_list_meta
  pub resource_spec-Copies : Copies resource_spec parts.copy_resource_spec
  pub raw_extension-Copies : Copies raw_extension parts.copy_raw_extension
  pub resource_status-Copies : Copies resource_status parts.copy_resource_status

module _ (parts : Parts) (deep : IsDeep parts) where
  open parts use {Cell}

  abbrev pub spec_shape : Shape Cell (StoredSpec parts)
  spec_shape =
      by (λ s. (s.resource_spec, s.properties)) (both deep.resource_spec deep.raw_extension)

  abbrev pub status_shape : Shape Cell (StoredStatus parts)
  status_shape = by (λ s. s.resource_status) deep.resource_status

  abbrev pub config_shape : Shape Cell (StoredConfig parts)
  config_shape =
      by (λ x. (x.type_meta, (x.object_meta, (x.spec, x.status))))
        (both (constant TypeMeta) (both deep.object_meta (both spec_shape status_shape)))

  abbrev pub list_shape : Shape Cell (StoredList parts)
  list_shape =
      by (λ l. (l.type_meta, (l.list_meta, l.items)))
        (both (constant TypeMeta) (both deep.list_meta (optional (listed config_shape))))

  spec_into-Copies : Copies spec_shape (spec_into parts)
  unfolding spec_into
  spec_into-Copies =
      Copies-by _ _ _ _ (λ s h. refl)
        (Copies-both _ _ _ _ deep.resource_spec-Copies deep.raw_extension-Copies)

  status_into-Copies : Copies status_shape (status_into parts)
  unfolding status_into
  status_into-Copies = Copies-by _ _ _ _ (λ s h. refl) deep.resource_status-Copies

  config_into-Copies : Copies config_shape (config_into parts)
  unfolding config_into
  config_into-Copies =
      Copies-by _ _ _ _ (λ x h. refl)
        (Copies-both _ _ _ _ (Copies-constant TypeMeta) (
          Copies-both _ _ _ _ deep.object_meta-Copies
            (Copies-both _ _ _ _ spec_into-Copies status_into-Copies)))

  items_into-Copies : Copies (optional (listed config_shape)) (items_into parts)
  unfolding items_into configs_into
  items_into-Copies = record { at = items_at }
    where
      configs : Copies (listed config_shape) (configs_into parts)
      configs =
          Copies-listed config_shape (config_into parts) (configs_into parts) (λ h. refl)
            (λ x xs h. refl) config_into-Copies

      items_at :
          (items : Option (List (StoredConfig parts))) (h : List Cell)
          → Valid (optional (listed config_shape)) items h
          → Copied
              (optional (listed config_shape))
              items
              h
              (items_into parts items h).0
              (items_into parts items h).1
      items_at none h v = Copied-none (listed config_shape) h
      items_at (some xs) h v =
          Copied-some (listed config_shape) xs (configs_into parts xs h).0 h
            (configs_into parts xs h).1 (configs.at xs h v)

  list_into-Copies : Copies list_shape (list_into parts)
  unfolding list_into
  list_into-Copies =
      Copies-by _ _ _ _ (λ l h. refl)
        (Copies-both _ _ _ _ (Copies-constant TypeMeta)
          (Copies-both _ _ _ _ deep.list_meta-Copies items_into-Copies))

  deep_copy-Copies :
      {A : Type 0} (s : Shape Cell A) (into : A → List Cell → A × List Cell)
      → Copies s into
      → Copies (optional s) (deep_copy parts into)
  unfolding deep_copy
  deep_copy-Copies s into c = record { at = copy_at }
    where
      copy_at :
          (a : Option _) (h : List Cell)
          → Valid (optional s) a h
          → Copied (optional s) a h (deep_copy parts into a h).0 (deep_copy parts into a h).1
      copy_at none h v = Copied-none s h
      copy_at (some a) h v = Copied-some s a (into a h).0 h (into a h).1 (c.at a h v)

  -- A deep copy of a list, nil included, shows what the list shows, each of its addresses is that of
  -- a cell that did not exist before, and no cell that existed has changed. This takes that the
  -- libraries' parts are copied so, and that the addresses in the list are those of cells.
  pub deep_copy_list-Copied :
      (l : Option (StoredList parts)) (h : List Cell)
      → Valid (optional list_shape) l h
      → Copied (optional list_shape) l h (deep_copy_list parts l h).0 (deep_copy_list parts l h).1
  unfolding deep_copy_list
  deep_copy_list-Copied = (deep_copy-Copies list_shape (list_into parts) list_into-Copies).at

  deep_copy_config-Copied :
      (x : Option (StoredConfig parts)) (h : List Cell)
      → Valid (optional config_shape) x h
      → Copied
          (optional config_shape)
          x
          h
          (deep_copy_config parts x h).0
          (deep_copy_config parts x h).1
  unfolding deep_copy_config
  deep_copy_config-Copied =
      (deep_copy-Copies config_shape (config_into parts) config_into-Copies).at

  -- After a deep copy of a resource, writes to new cells, such as those that the copy leads to, do
  -- not change what the resource shows, and writes to the cells that existed before do not change
  -- what the copy shows. The parts of the libraries and the resource are as for the copy of a list.
  pub deep_copy_config-write_all :
      (x : Option (StoredConfig parts)) (h : List Cell)
      → Valid (optional config_shape) x h
      → (to_new to_old : List (ℕ × Cell)) → All (λ w. length h ≤ w.0) to_new
      → All (λ w. w.0 < length h) to_old
      → let (y, h') = deep_copy_config parts x h in
        ((optional config_shape).view x (write_all to_new h') ≡ (optional config_shape).view x h)
        × ((optional config_shape).view y (write_all to_old h') ≡ (optional config_shape).view x h)
  deep_copy_config-write_all x h v to_new to_old new old =
      let y = (deep_copy_config parts x h).0 in
      let h' = (deep_copy_config parts x h).1 in
      let c = deep_copy_config-Copied x h v in
      (
        write_new-view (optional config_shape) x h y h' v c to_new new,
        write_old-view (optional config_shape) x h y h' c to_old old,
      )
