-- ===== src/Prelude/Returns.antt =====
-- Outcomes that are no panic, and how a sequence of steps keeps this.
use Prim.Native.String.{String}
use mathlib.Core.Path.{◌≡◌, refl}
use mathlib.Core.Logic.{◌≢◌}
use config_srl.Prelude.Outcome.{Error, Outcome, ok, err, panic, wrap_err, ◌>>=◌}

-- The call ends in a result or an error.
abbrev pub Returns {ℓ} : {A : Type ℓ} → Outcome A → Type ℓ
Returns m = m ≢ panic

module _ {ℓ} {A : Type ℓ} where
  pub ok-Returns : (a : A) → Returns (ok a)
  ok-Returns a h = cc h

  pub err-Returns : (e : Error) → Returns {A = A} (err e)
  err-Returns e h = cc h

  pub wrap_err-Returns :
      (message : String) (m : Outcome A) → Returns m → Returns (wrap_err message m)
  wrap_err-Returns message (ok a) r h = cc h
  wrap_err-Returns message (err e) r h = cc h
  wrap_err-Returns message panic r h = r refl

  pub >>=-Returns {κ} :
      {B : Type κ} (m : Outcome A) (f : A → Outcome B)
      → Returns m
      → ((a : A) → m ≡ ok a → Returns (f a))
      → Returns (m >>= f)
  >>=-Returns (ok a) f r s h = s a refl h
  >>=-Returns (err e) f r s h = cc h
  >>=-Returns panic f r s h = r refl
