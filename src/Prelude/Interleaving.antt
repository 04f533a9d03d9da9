-- ===== src/Prelude/Interleaving.antt =====
-- Two sequences of steps side by side, in any order that keeps the order of each.
use config_srl.Prelude.Lists.{All}
use mathlib.Core.List.{List, [], ◌∷◌}

pub data Interleaving {A : Type 0} : List A → List A → List A → Type 0 where
  ended : Interleaving [] [] []
  first_steps :
      (x : A) {xs ys zs : List A} → Interleaving xs ys zs → Interleaving (x ∷ xs) ys (x ∷ zs)
  second_steps :
      (y : A) {xs ys zs : List A} → Interleaving xs ys zs → Interleaving xs (y ∷ ys) (y ∷ zs)

pub Interleaving-All {κ} :
    {A : Type 0} (P : A → Type κ) {xs ys zs : List A}
    → Interleaving xs ys zs
    → All P xs
    → All P ys
    → All P zs
Interleaving-All P ended h k = tt
Interleaving-All P (first_steps x m) h k = (h.0, Interleaving-All P m h.1 k)
Interleaving-All P (second_steps y m) h k = (k.0, Interleaving-All P m h k.1)

pub Interleaving-swap :
    {A : Type 0} {xs ys zs : List A} → Interleaving xs ys zs → Interleaving ys xs zs
Interleaving-swap ended = ended
Interleaving-swap (first_steps x m) = second_steps x (Interleaving-swap m)
Interleaving-swap (second_steps y m) = first_steps y (Interleaving-swap m)
