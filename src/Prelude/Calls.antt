-- ===== src/Prelude/Calls.antt =====
-- `if err := call; err != nil { return errors.Wrap(err, message) }`, for a call with no other result
-- and for one with a result.
use Prim.Native.String.{String}
use mathlib.Core.Path.{◌≡◌, refl, ap}
use mathlib.Core.Option.{Option, none, some}
use native.Mathlib.Omega.{arith}
use config_srl.Prelude.Outcome.{Error, wrap, Outcome, ok, err, wrap_err}
use config_srl.Prelude.Effect.{Eff}

module _ {W : Type 0} where
  unfoldable pub check : String → (W → Option Error × W) → Eff W (Unit {0})
  check message call w =
      let (e, w') = call w in
      elim e [ none ↦ (ok tt, w') | some cause ↦ (err (wrap cause message), w') ]

  unfoldable pub call_wrapped : {A : Type 0} → String → (W → Outcome A × W) → Eff W A
  call_wrapped message call w = let (r, w') = call w in (wrap_err message r, w')

  module _ (message : String) (call : W → Option Error × W) (w : W) {w' : W} where
    pub check-none : call w ≡ (none, w') → check message call w ≡ (ok tt, w')
    unfolding check
    check-none h = ground arith

    pub check-some :
        {e : Error} → call w ≡ (some e, w') → check message call w ≡ (err (wrap e message), w')
    unfolding check
    check-some h = ground arith

    pub check-eq-ok : {x : Unit {0}} → check message call w ≡ (ok x, w') → call w ≡ (none, w')
    unfolding check
    check-eq-ok h = ground arith

    pub check-eq-err :
        {e : Error}
        → check message call w ≡ (err e, w')
        → (cause : Error) × (call w ≡ (some cause, w')) × (e ≡ wrap cause message)
    unfolding check
    check-eq-err {e} h = by_error (call w).0 (call w).1 refl h
      where
        by_error :
            (o : Option Error) (w1 : W)
            → call w ≡ (o, w1)
            → ◌≡◌ {A = Outcome (Unit {0}) × W}
                (elim o [ none ↦ (ok tt, w1) | some cause ↦ (err (wrap cause message), w1) ])
                (err e, w')
            → (cause : Error) × (call w ≡ (some cause, w')) × (e ≡ wrap cause message)
        by_error none w1 c h = cc (ap (λ r. r.0) h)
        by_error (some cause) w1 c h = (cause, ground arith, ground arith)

  module _ {A : Type 0} (message : String) (call : W → Outcome A × W) (w : W) {w' : W} where
    pub call_wrapped-ok : {a : A} → call w ≡ (ok a, w') → call_wrapped message call w ≡ (ok a, w')
    unfolding call_wrapped
    call_wrapped-ok h = ground arith

    pub call_wrapped-err :
        {e : Error}
        → call w ≡ (err e, w')
        → call_wrapped message call w ≡ (err (wrap e message), w')
    unfolding call_wrapped
    call_wrapped-err h = ground arith

    pub call_wrapped-eq-ok :
        {a : A} → call_wrapped message call w ≡ (ok a, w') → call w ≡ (ok a, w')
    unfolding call_wrapped
    call_wrapped-eq-ok h = ground arith
