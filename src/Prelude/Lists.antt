-- ===== src/Prelude/Lists.antt =====
-- Lists over the native numbers, under the library's names, and predicates on all elements.
use Prim.Native.Nat.{ℕ, zero, suc, ◌+◌, ◌≤◌}
use mathlib.Core.Path.{◌≡◌, refl, ap}
use mathlib.Core.Logic.{◌⊎◌, inl, inr}
use mathlib.Core.List.{List, [], ◌∷◌, ◌++◌, map}
use mathlib.Core.Option.{Option, none, some}
use native.Mathlib.Omega.{arith}

module _ {ℓ} {A : Type ℓ} where
  abbrev pub length : List A → ℕ
  length [] = 0
  length (x ∷ xs) = suc (length xs)

  -- `s[i]`; `none` is an index out of range.
  abbrev pub get_elem? : List A → ℕ → Option A
  get_elem? [] i = none
  get_elem? (x ∷ xs) zero = some x
  get_elem? (x ∷ xs) (suc i) = get_elem? xs i

  -- `s[:n]`
  abbrev pub take : ℕ → List A → List A
  take zero xs = []
  take (suc n) [] = []
  take (suc n) (x ∷ xs) = x ∷ take n xs

  pub length-append : (xs ys : List A) → length (xs ++ ys) ≡ length xs + length ys
  length-append [] ys = omega arith
  length-append (x ∷ xs) ys = omega (arith, length-append xs ys)

  pub get_elem?-append : (xs ys : List A) (a : A) → get_elem? (xs ++ (a ∷ ys)) (length xs) ≡ some a
  get_elem?-append [] ys a = refl
  get_elem?-append (x ∷ xs) ys a = get_elem?-append xs ys a

  pub take-append : (xs ys : List A) → take (length xs) (xs ++ ys) ≡ xs
  take-append [] ys = refl
  take-append (x ∷ xs) ys = ap (λ r. x ∷ r) (take-append xs ys)

  -- A list of two elements or more, by its last two.
  pub split_last_two :
      (xs : List A)
      → 2 ≤ length xs
      → (pre : List A) × (a : A) × (b : A) × (xs ≡ pre ++ (a ∷ b ∷ []))
  split_last_two [] h = absurd (omega arith)
  split_last_two (x ∷ []) h = absurd (omega arith)
  split_last_two (x ∷ y ∷ []) h = ([], x, y, refl)
  split_last_two (x ∷ y ∷ z ∷ xs) h =
      let (pre, a, b, e) = split_last_two (y ∷ z ∷ xs) (omega arith) in
      (x ∷ pre, a, b, ap (λ r. x ∷ r) e)

  -- A list is empty, or it ends in its last element.
  pub split_last : (xs : List A) → (xs ≡ []) ⊎ ((pre : List A) × (a : A) × (xs ≡ pre ++ (a ∷ [])))
  split_last [] = inl refl
  split_last (x ∷ xs) = elim (split_last xs) [
    | inl e ↦ inr ([], x, ap (λ r. x ∷ r) e)
    | inr (pre, a, e) ↦ inr (x ∷ pre, a, ap (λ r. x ∷ r) e)
  ]

  -- The last element of a sequence that has one.
  abbrev pub last_or : A → List A → A
  last_or d [] = d
  last_or d (x ∷ xs) = last_or x xs

module _ {ℓ κ} {A : Type ℓ} {B : Type κ} where
  pub length-map : (f : A → B) (xs : List A) → length (map f xs) ≡ length xs
  length-map f [] = refl
  length-map f (x ∷ xs) = ap suc (length-map f xs)

-- A predicate of every element.
abbrev pub All {ℓ κ} : {A : Type ℓ} → (A → Type κ) → List A → Type κ
All P [] = Unit
All P (x ∷ xs) = P x × All P xs

-- `a` occurs in the list; its position is kept.
abbrev pub Occurs : {A : Type 0} → A → List A → Type 0
Occurs a [] = ⊥
Occurs a (x ∷ xs) = (a ≡ x) ⊎ Occurs a xs

module _ {ℓ κ} {A : Type ℓ} (P : A → Type κ) where
  pub All-map : (Q : A → Type κ) → ((x : A) → P x → Q x) → (xs : List A) → All P xs → All Q xs
  All-map Q f [] h = tt
  All-map Q f (x ∷ xs) (p, h) = (f x p, All-map Q f xs h)

  pub All-append : (xs ys : List A) → All P xs → All P ys → All P (xs ++ ys)
  All-append [] ys h k = k
  All-append (x ∷ xs) ys (p, h) k = (p, All-append xs ys h k)

  pub append-All : (xs ys : List A) → All P (xs ++ ys) → All P xs × All P ys
  append-All [] ys h = (tt, h)
  append-All (x ∷ xs) ys (p, h) = let (a, b) = append-All xs ys h in ((p, a), b)
