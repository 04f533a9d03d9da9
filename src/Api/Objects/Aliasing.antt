-- ===== src/Api/Objects/Aliasing.antt =====
-- Which writes reach the list.
use mathlib.Core.List.{append-nil, append_assoc}
use config_srl.Prelude.{
  ℕ, zero, suc, ◌+◌, ◌≡◌, ◌≢◌, refl, sym, ap, ◌∙◌, none, some, List, [], ◌∷◌, ◌++◌, arith,
}
use config_srl.Prelude.Lists.{length, get_elem?}
use config_srl.Api.{SrlConfig}
use config_srl.Api.Objects.{
  Objects, Pointer, item, copy, load, modify_elem, modify, items_from, get_items, configs_from,
  get_configs,
}

get_elem?-items_from :
    (k : ℕ) (xs : List SrlConfig) (i : ℕ) {x : SrlConfig}
    → get_elem? xs i ≡ some x
    → get_elem? (items_from k xs) i ≡ some (item (k + i))
unfolding items_from
get_elem?-items_from k [] i h = cc
get_elem?-items_from k (y ∷ xs) zero h = ap (λ n. some (item n)) (omega arith)
get_elem?-items_from k (y ∷ xs) (suc i) h =
    get_elem?-items_from (suc k) xs i h ∙ ap (λ n. some (item n)) (omega arith)

module _ (f : SrlConfig → SrlConfig) where
  modify_elem-same :
      (xs : List SrlConfig) (i : ℕ) {x : SrlConfig}
      → get_elem? xs i ≡ some x
      → get_elem? (modify_elem f i xs) i ≡ some (f x)
  modify_elem-same [] i h = cc
  modify_elem-same (y ∷ xs) zero {x} h = ap (λ o. some (f (elim o [ none ↦ y | some z ↦ z ]))) h
  modify_elem-same (y ∷ xs) (suc i) h = modify_elem-same xs i h

  modify_elem-other :
      (xs : List SrlConfig) (i j : ℕ) → j ≢ i → get_elem? (modify_elem f i xs) j ≡ get_elem? xs j
  modify_elem-other [] i j d = refl
  modify_elem-other (y ∷ xs) zero zero d = absurd (d refl)
  modify_elem-other (y ∷ xs) zero (suc j) d = refl
  modify_elem-other (y ∷ xs) (suc i) zero d = refl
  modify_elem-other (y ∷ xs) (suc i) (suc j) d = modify_elem-other xs i j (λ e. d (ap suc e))

-- The pointers of `GetItems` lead into the list: the one at an index leads to the resource at it, and
-- a setter called on it changes the list there and nowhere else.
get_items-modify :
    (s : Objects) (i : ℕ) {x : SrlConfig}
    → get_elem? s.items i ≡ some x
    → (p : Pointer) × (get_elem? (get_items s) i ≡ some p)
      × (load p s ≡ some x)
      × ((f : SrlConfig → SrlConfig)
          → (get_elem? (modify p f s).items i ≡ some (f x))
            × ((j : ℕ) → j ≢ i → get_elem? (modify p f s).items j ≡ get_elem? s.items j))
unfolding get_items
get_items-modify s i h = (
  item i,
  get_elem?-items_from 0 s.items i h ∙ ap (λ n. some (item n)) (omega arith),
  h,
  λ f. (modify_elem-same f s.items i h, λ j d. modify_elem-other f s.items i j d),
)

get_elem?-append_length :
    (c xs : List SrlConfig) (i : ℕ) → get_elem? (c ++ xs) (length c + i) ≡ get_elem? xs i
get_elem?-append_length [] xs i = ap (λ n. get_elem? xs n) (omega arith)
get_elem?-append_length (y ∷ c) xs i =
    let next : length (y ∷ c) + i ≡ suc (length c + i) = omega arith in
    ap (λ n. get_elem? (y ∷ (c ++ xs)) n) next ∙ get_elem?-append_length c xs i

length-append_one : (c : List SrlConfig) (x : SrlConfig) → length (c ++ (x ∷ [])) ≡ suc (length c)
length-append_one [] x = refl
length-append_one (y ∷ c) x = ap suc (length-append_one c x)

configs_from-copies : (xs c : List SrlConfig) → (configs_from xs c).1 ≡ (c ++ xs)
unfolding configs_from
configs_from-copies [] c = sym (append-nil c)
configs_from-copies (x ∷ xs) c = configs_from-copies xs (c ++ (x ∷ [])) ∙ append_assoc c (x ∷ []) xs

get_elem?-configs_from :
    (xs c : List SrlConfig) (i : ℕ) {x : SrlConfig}
    → get_elem? xs i ≡ some x
    → get_elem? (configs_from xs c).0 i ≡ some (copy (length c + i))
unfolding configs_from
get_elem?-configs_from [] c i h = cc
get_elem?-configs_from (y ∷ xs) c zero h = ap (λ n. some (copy n)) (omega arith)
get_elem?-configs_from (y ∷ xs) c (suc i) h =
    get_elem?-configs_from xs (c ++ (y ∷ [])) i h
    ∙ ap (λ n. some (copy n)) (rw length-append_one (omega arith))

-- The pointers of `GetConfigs` lead to copies: the one at an index shows the resource at it, a setter
-- called on it is seen through it, and the list stays as it is.
get_configs-modify :
    (s : Objects) (i : ℕ) {x : SrlConfig}
    → get_elem? s.items i ≡ some x
    → (p : Pointer) × (get_elem? (get_configs s).0 i ≡ some p)
      × (load p (get_configs s).1 ≡ some x)
      × ((f : SrlConfig → SrlConfig)
          → (load p (modify p f (get_configs s).1) ≡ some (f x))
            × ((modify p f (get_configs s).1).items ≡ s.items))
unfolding get_configs
get_configs-modify s i {x} h =
    let n = length s.copies + i in
    let copied : get_elem? (configs_from s.items s.copies).1 n ≡ some x =
      rw configs_from-copies (get_elem?-append_length s.copies s.items i ∙ h) in
    (
      copy n,
      get_elem?-configs_from s.items s.copies i h,
      copied,
      λ f. (modify_elem-same f (configs_from s.items s.copies).1 n copied, refl),
    )

-- At an index of the list, both `GetItems` and `GetConfigs` have a pointer that shows the resource.
-- A setter that is called on the pointer of `GetItems` changes the list at this index and nowhere
-- else. One that is called on the pointer of `GetConfigs` is seen through it, and leaves the list
-- as it is.
pub pointers-modify :
    (s : Objects) (i : ℕ) {x : SrlConfig}
    → get_elem? s.items i ≡ some x
    → ((p : Pointer) × (get_elem? (get_items s) i ≡ some p)
        × (load p s ≡ some x)
        × ((f : SrlConfig → SrlConfig)
            → (get_elem? (modify p f s).items i ≡ some (f x))
              × ((j : ℕ) → j ≢ i → get_elem? (modify p f s).items j ≡ get_elem? s.items j)))
      × ((p : Pointer) × (get_elem? (get_configs s).0 i ≡ some p)
          × (load p (get_configs s).1 ≡ some x)
          × ((f : SrlConfig → SrlConfig)
              → (load p (modify p f (get_configs s).1) ≡ some (f x))
                × ((modify p f (get_configs s).1).items ≡ s.items)))
pointers-modify s i h = (get_items-modify s i h, get_configs-modify s i h)
