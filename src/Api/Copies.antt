-- ===== src/Api/Copies.antt =====
-- The deep copies of apis/srl/v1alpha1/zz_generated.deepcopy.go, on a heap of cells. A struct is the
-- value of its fields; what a field leads to (pointers, slices and maps of the libraries' types) is
-- in the heap, under the addresses that the field holds. `new` and `make` give new structs, so a
-- pointer to a struct is the struct, or nil.
pub mod Shapes
pub mod Containers
pub mod Writes
pub mod Laws
use config_srl.Prelude.{String, Option, none, some, List, [], ◌∷◌}

-- The types of other repositories that are part of the copied structs, each with its DeepCopyInto:
-- the copy and the heap in which it leads to what was copied.
pub record Parts : Type 1 where
  pub Cell : Type 0
  pub ObjectMeta : Type 0
  pub ListMeta : Type 0
  pub ResourceSpec : Type 0
  pub RawExtension : Type 0
  pub ResourceStatus : Type 0
  pub copy_object_meta : ObjectMeta → List Cell → ObjectMeta × List Cell
  pub copy_list_meta : ListMeta → List Cell → ListMeta × List Cell
  pub copy_resource_spec : ResourceSpec → List Cell → ResourceSpec × List Cell
  pub copy_raw_extension : RawExtension → List Cell → RawExtension × List Cell
  pub copy_resource_status : ResourceStatus → List Cell → ResourceStatus × List Cell

-- metav1.TypeMeta, which holds no address.
pub record TypeMeta : Type 0 where
  pub kind : String
  pub api_version : String

module _ (parts : Parts) where
  open parts use {
    Cell, ObjectMeta, ListMeta, ResourceSpec, RawExtension, ResourceStatus, copy_object_meta,
    copy_list_meta, copy_resource_spec, copy_raw_extension, copy_resource_status,
  }

  -- ConfigSpec, with the embedded ResourceSpec.
  pub record StoredSpec : Type 0 where
    pub resource_spec : ResourceSpec
    pub properties : RawExtension

  -- ConfigStatus, with the embedded ResourceStatus.
  pub record StoredStatus : Type 0 where
    pub resource_status : ResourceStatus

  -- SrlConfig
  pub record StoredConfig : Type 0 where
    pub type_meta : TypeMeta
    pub object_meta : ObjectMeta
    pub spec : StoredSpec
    pub status : StoredStatus

  -- SrlConfigList; `none` is a nil slice.
  pub record StoredList : Type 0 where
    pub type_meta : TypeMeta
    pub list_meta : ListMeta
    pub items : Option (List StoredConfig)

  -- Each `DeepCopyInto` first assigns the whole struct, which shares all parts, and then replaces the
  -- parts that it copies.
  unfoldable pub spec_into : StoredSpec → List Cell → StoredSpec × List Cell
  spec_into spec h =
      let (resource_spec, h1) = copy_resource_spec spec.resource_spec h in
      let out = record spec { resource_spec = resource_spec } in
      let (properties, h2) = copy_raw_extension spec.properties h1 in
      (record out { properties = properties }, h2)

  unfoldable pub status_into : StoredStatus → List Cell → StoredStatus × List Cell
  status_into status h =
      let (resource_status, h1) = copy_resource_status status.resource_status h in
      (record status { resource_status = resource_status }, h1)

  unfoldable pub config_into : StoredConfig → List Cell → StoredConfig × List Cell
  unfolding spec_into status_into
  config_into x h =
      let out = record x { type_meta = x.type_meta } in
      let (object_meta, h1) = copy_object_meta x.object_meta h in
      let (spec, h2) = spec_into x.spec h1 in
      let (status, h3) = status_into x.status h2 in
      (record out { object_meta = object_meta; spec = spec; status = status }, h3)

  -- The loop over the items.
  unfoldable pub configs_into : List StoredConfig → List Cell → List StoredConfig × List Cell
  unfolding config_into
  configs_into [] h = ([], h)
  configs_into (x ∷ xs) h =
      let (y, h1) = config_into x h in let (ys, h2) = configs_into xs h1 in (y ∷ ys, h2)

  unfoldable pub items_into :
      Option (List StoredConfig) → List Cell → Option (List StoredConfig) × List Cell
  unfolding configs_into
  items_into none h = (none, h)
  items_into (some xs) h = let (ys, h1) = configs_into xs h in (some ys, h1)

  unfoldable pub list_into : StoredList → List Cell → StoredList × List Cell
  unfolding items_into
  list_into l h =
      let out = record l { type_meta = l.type_meta } in
      let (list_meta, h1) = copy_list_meta l.list_meta h in
      let (items, h2) = items_into l.items h1 in
      (record out { list_meta = list_meta; items = items }, h2)

  -- `DeepCopy`: a nil pointer gives nil.
  pub deep_copy :
      {A : Type 0} → (A → List Cell → A × List Cell) → Option A → List Cell → Option A × List Cell
  deep_copy into none h = (none, h)
  deep_copy into (some a) h = let (out, h1) = into a h in (some out, h1)

  unfoldable pub deep_copy_spec : Option StoredSpec → List Cell → Option StoredSpec × List Cell
  unfolding deep_copy
  deep_copy_spec = deep_copy spec_into

  unfoldable pub deep_copy_status :
      Option StoredStatus → List Cell → Option StoredStatus × List Cell
  unfolding deep_copy
  deep_copy_status = deep_copy status_into

  unfoldable pub deep_copy_config :
      Option StoredConfig → List Cell → Option StoredConfig × List Cell
  unfolding deep_copy
  deep_copy_config = deep_copy config_into

  unfoldable pub deep_copy_list : Option StoredList → List Cell → Option StoredList × List Cell
  unfolding deep_copy
  deep_copy_list = deep_copy list_into

  -- A value of the interface runtime.Object, or nil.
  pub data RuntimeObject : Type 0 where
    config_object : StoredConfig → RuntimeObject
    list_object : StoredList → RuntimeObject

  -- `DeepCopyObject`
  unfoldable pub config_copy_object :
      Option StoredConfig → List Cell → Option RuntimeObject × List Cell
  unfolding deep_copy_config
  config_copy_object x h =
      let (c, h1) = deep_copy_config x h in
      (elim c [ none ↦ none | some out ↦ some (config_object out) ], h1)

  unfoldable pub list_copy_object : Option StoredList → List Cell → Option RuntimeObject × List Cell
  unfolding deep_copy_list
  list_copy_object x h =
      let (c, h1) = deep_copy_list x h in
      (elim c [ none ↦ none | some out ↦ some (list_object out) ], h1)
