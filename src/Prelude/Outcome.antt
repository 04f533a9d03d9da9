-- ===== src/Prelude/Outcome.antt =====
-- What a Go call that returns an error ends in: a result, an error value, or a run-time panic
-- (a nil dereference, an index out of range).
use Prim.Native.String.{String, ◌++◌ as ◌<>◌}
use mathlib.Core.Path.{◌≡◌, refl, ap}
use mathlib.Core.Option.{Option, none, some}

-- `foreign` is an error made by a library, by its text; `new` and `wrap` are `errors.New` and
-- `errors.Wrap`.
pub data Error : Type 0 where
  foreign : String → Error
  new : String → Error
  wrap : Error → String → Error

-- `err.Error()`; a wrapped error prints as "message: cause".
abbrev pub error_text : Error → String
error_text (foreign s) = s
error_text (new s) = s
error_text (wrap e s) = s <> (": " <> error_text e)

pub data Outcome {ℓ} (A : Type ℓ) : Type ℓ where
  ok : A → Outcome A
  err : Error → Outcome A
  panic : Outcome A

infixl 5 ◌>>=◌ ◌>>◌
-- The next step runs on a result only.
abbrev pub ◌>>=◌ {ℓ κ} : {A : Type ℓ} {B : Type κ} → Outcome A → (A → Outcome B) → Outcome B
panic >>= next = panic
err cause >>= next = err cause
ok result >>= next = next result

abbrev pub ◌>>◌ {ℓ} : {A : Type ℓ} → Outcome (Unit {0}) → Outcome A → Outcome A
first >> second = first >>= λ done. second

-- `if err != nil { return errors.Wrap(err, message) }`
abbrev pub wrap_err {ℓ} : {A : Type ℓ} → String → Outcome A → Outcome A
wrap_err message (ok a) = ok a
wrap_err message (err e) = err (wrap e message)
wrap_err message panic = panic

-- `*p`: a nil pointer panics.
abbrev pub deref {ℓ} : {A : Type ℓ} → Option A → Outcome A
deref none = panic
deref (some a) = ok a

-- A bind gives a result only if both of its parts do.
pub >>=-eq-ok {ℓ κ} :
    {A : Type ℓ} {B : Type κ} (step : Outcome A) (next : A → Outcome B) {result : B}
    → (step >>= next) ≡ ok result
    → (a : A) × (step ≡ ok a) × (next a ≡ ok result)
>>=-eq-ok panic next h = cc
>>=-eq-ok (err cause) next h = cc
>>=-eq-ok (ok a) next h = (a, refl, h)

-- To split on a computed outcome and keep the equation.
pub data Cases {ℓ} {A : Type ℓ} (m : Outcome A) : Type ℓ where
  is_ok : (a : A) → m ≡ ok a → Cases m
  is_err : (e : Error) → m ≡ err e → Cases m
  is_panic : m ≡ panic → Cases m

pub Outcome-Cases {ℓ} : {A : Type ℓ} (m : Outcome A) → Cases m
Outcome-Cases (ok a) = is_ok a refl
Outcome-Cases (err e) = is_err e refl
Outcome-Cases panic = is_panic refl

pub >>=_assoc {ℓ κ μ} :
    {A : Type ℓ} {B : Type κ} {C : Type μ} (m : Outcome A) (f : A → Outcome B) (g : B → Outcome C)
    → (m >>= f >>= g) ≡ (m >>= λ a. (f a >>= g))
>>=_assoc (ok a) f g = refl
>>=_assoc (err e) f g = refl
>>=_assoc panic f g = refl

abbrev from_ok {ℓ} : {A : Type ℓ} → A → Outcome A → A
from_ok d (ok a) = a
from_ok d (err e) = d
from_ok d panic = d

pub ok-injective {ℓ} : {A : Type ℓ} (a b : A) → ok a ≡ ok b → a ≡ b
ok-injective a b h = ap (from_ok a) h
