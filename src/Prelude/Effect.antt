-- ===== src/Prelude/Effect.antt =====
-- A call that talks to a server: it takes the server's state and returns the new one with its
-- outcome. What was written stays written when a later step fails.
use mathlib.Core.Path.{◌≡◌, sym, ap, ◌∙◌}
use config_srl.Prelude.Outcome.{
  Error, Outcome, ok, err, panic, is_ok, is_err, is_panic, Outcome-Cases,
}

abbrev pub Eff : Type 0 → Type 0 → Type 0
Eff W A = W → Outcome A × W

module _ {W : Type 0} where
  abbrev pub lift : {A : Type 0} → Outcome A → Eff W A
  lift r w = (r, w)

  infixl 5 ◌>>=◌ ◌>>◌
  abbrev pub ◌>>=◌ : {A B : Type 0} → Eff W A → (A → Eff W B) → Eff W B
  ◌>>=◌ m f w =
      let (r, w') = m w in elim r [ ok a ↦ f a w' | err e ↦ (err e, w') | panic ↦ (panic, w') ]

  abbrev pub ◌>>◌ : {A B : Type 0} → Eff W A → Eff W B → Eff W B
  m >> k = m >>= λ _. k

  -- A bind, by the outcome of its first part.
  module _ {A B : Type 0} (m : Eff W A) (f : A → Eff W B) (w : W) where
    pub >>=-ok : {a : A} → (m w).0 ≡ ok a → (m >>= f) w ≡ f a (m w).1
    >>=-ok h = rw (h, ◌>>=◌)

    pub >>=-ok_at : {a : A} {w' : W} → m w ≡ (ok a, w') → (m >>= f) w ≡ f a w'
    >>=-ok_at {a} h = >>=-ok (ap (λ r. r.0) h) ∙ ap (λ r. f a r.1) h

    pub >>=-err : {e : Error} → (m w).0 ≡ err e → (m >>= f) w ≡ (err e, (m w).1)
    >>=-err h = rw (h, ◌>>=◌)

    pub >>=-err_at : {e : Error} {w' : W} → m w ≡ (err e, w') → (m >>= f) w ≡ (err e, w')
    >>=-err_at {e} h = >>=-err (ap (λ r. r.0) h) ∙ ap (λ r. (err e, r.1)) h

    pub >>=-panic : (m w).0 ≡ panic → (m >>= f) w ≡ (panic, (m w).1)
    >>=-panic h = rw (h, ◌>>=◌)

  -- Inversion of a successful bind.
  pub >>=-eq-ok :
      {A B : Type 0} (m : Eff W A) (f : A → Eff W B) (w : W) {b : B} {w'' : W}
      → (m >>= f) w ≡ (ok b, w'')
      → (a : A) × (w' : W) × (m w ≡ (ok a, w')) × (f a w' ≡ (ok b, w''))
  >>=-eq-ok m f w h = elim (Outcome-Cases (m w).0) [
    | is_ok a e ↦ (a, (m w).1, λ i. (e i, (m w).1), sym (>>=-ok m f w e) ∙ h)
    | is_err x e ↦ cc (ap (λ r. r.0) (sym (>>=-err m f w e) ∙ h))
    | is_panic e ↦ cc (ap (λ r. r.0) (sym (>>=-panic m f w e) ∙ h))
  ]
