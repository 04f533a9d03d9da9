-- ===== src/Tests/CopyTests.antt =====
-- Deep copies where each part of the libraries is a pointer to one number.
use config_srl.Prelude.{
  ℕ, zero, suc, ◌<◌, ◌≡◌, refl, ◌∙◌, Option, none, some, List, [], ◌∷◌, ◌++◌, arith,
}
use config_srl.Prelude.Lists.{length, get_elem?, get_elem?-append, length-append}
use config_srl.Api.Copies.{Parts, StoredConfig, StoredList, deep_copy_config, deep_copy_list}
use config_srl.Api.Copies.Shapes.{Shape, Valid, Copied, Copies}
use config_srl.Api.Copies.Containers.{optional}
use config_srl.Api.Copies.Writes.{write_all}
use config_srl.Api.Copies.Laws.{
  IsDeep, config_shape, list_shape, deep_copy_list-Copied, deep_copy_config-write_all,
}

-- A new cell with what is under the address.
abbrev copy_cell : ℕ → List ℕ → ℕ × List ℕ
copy_cell a h = (length h, h ++ (elim (get_elem? h a) [ none ↦ 0 | some c ↦ c ] ∷ []))

abbrev pointers : Parts
pointers = record {
  Cell = ℕ;
  ObjectMeta = ℕ;
  ListMeta = ℕ;
  ResourceSpec = ℕ;
  RawExtension = ℕ;
  ResourceStatus = ℕ;
  copy_object_meta = copy_cell;
  copy_list_meta = copy_cell;
  copy_resource_spec = copy_cell;
  copy_raw_extension = copy_cell;
  copy_resource_status = copy_cell;
}

abbrev pointer : Shape ℕ ℕ
pointer = record {
  refs = λ a. a ∷ [];
  View = Option ℕ;
  view = λ a h. get_elem? h a;
  frame = λ a h h' e. e.0;
}

get_elem?-append_left : (h k : List ℕ) (r : ℕ) → r < length h → get_elem? (h ++ k) r ≡ get_elem? h r
get_elem?-append_left [] k r l = absurd (omega (arith, l))
get_elem?-append_left (x ∷ h) k zero l = refl
get_elem?-append_left (x ∷ h) k (suc r) l = get_elem?-append_left h k r (omega (arith, l))

get_elem?_known :
    (h : List ℕ) (a : ℕ)
    → a < length h
    → some (elim (get_elem? h a) [ none ↦ 0 | some c ↦ c ]) ≡ get_elem? h a
get_elem?_known [] a l = absurd (omega (arith, l))
get_elem?_known (x ∷ h) zero l = refl
get_elem?_known (x ∷ h) (suc a) l = get_elem?_known h a (omega (arith, l))

pointer-Copies : Copies pointer copy_cell
pointer-Copies = record {
  at = λ a h v. record {
    same = get_elem?-append h [] _ ∙ get_elem?_known h a v.0;
    fresh = ((omega arith, omega (arith, length-append h (0 ∷ []), longer h _)), tt);
    kept = λ r l. get_elem?-append_left h _ r l;
    grows = omega (arith, longer h _);
  };
}
  where
    longer : (h : List ℕ) (c : ℕ) → length (h ++ (c ∷ [])) ≡ suc (length h)
    longer h c = omega (arith, length-append h (c ∷ []))

abbrev pointers-IsDeep : IsDeep pointers
pointers-IsDeep = record {
  object_meta = pointer;
  list_meta = pointer;
  resource_spec = pointer;
  raw_extension = pointer;
  resource_status = pointer;
  object_meta-Copies = pointer-Copies;
  list_meta-Copies = pointer-Copies;
  resource_spec-Copies = pointer-Copies;
  raw_extension-Copies = pointer-Copies;
  resource_status-Copies = pointer-Copies;
}

abbrev stored : StoredConfig pointers
stored = record {
  type_meta = record { kind = "SrlConfig"; api_version = "v1alpha1" };
  object_meta = 0;
  spec = record { resource_spec = 1; properties = 2 };
  status = record { resource_status = 3 };
}

abbrev stored_list : StoredList pointers
stored_list = record {
  type_meta = record { kind = "SrlConfigList"; api_version = "v1alpha1" };
  list_meta = 4;
  items = some (stored ∷ stored ∷ []);
}

abbrev heap : List ℕ
heap = 10 ∷ 11 ∷ 12 ∷ 13 ∷ 14 ∷ []

stored-Valid : Valid (optional (config_shape pointers pointers-IsDeep)) (some stored) heap
stored-Valid = (omega arith, (omega arith, (omega arith, (omega arith, tt))))

deep_copy_list-Copied_example :
    Copied
      (optional (list_shape pointers pointers-IsDeep))
      (some stored_list)
      heap
      (deep_copy_list pointers (some stored_list) heap).0
      (deep_copy_list pointers (some stored_list) heap).1
deep_copy_list-Copied_example =
    deep_copy_list-Copied pointers pointers-IsDeep (some stored_list) heap (
      omega arith,
      (
        omega arith,
        (
          omega arith,
          (
            omega arith,
            (omega arith, (omega arith, (omega arith, (omega arith, (omega arith, tt))))),
          ),
        ),
      ),
    )

deep_copy_config-write_all_example :
    ((optional (config_shape pointers pointers-IsDeep)).view
        (some stored)
        (write_all ((5, 99) ∷ []) (deep_copy_config pointers (some stored) heap).1)
      ≡ (optional (config_shape pointers pointers-IsDeep)).view (some stored) heap)
    × ((optional (config_shape pointers pointers-IsDeep)).view
          (deep_copy_config pointers (some stored) heap).0
          (write_all ((0, 99) ∷ []) (deep_copy_config pointers (some stored) heap).1)
        ≡ (optional (config_shape pointers pointers-IsDeep)).view (some stored) heap)
deep_copy_config-write_all_example =
    deep_copy_config-write_all pointers pointers-IsDeep (some stored) heap stored-Valid
      ((5, 99) ∷ []) ((0, 99) ∷ []) (omega arith, tt) (omega arith, tt)
