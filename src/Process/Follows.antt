-- ===== src/Process/Follows.antt =====
-- Parts of the commands that follow a plan of calls, one rule for each way to build a part.
use config_srl.Prelude.{String, ◌≡◌, refl, ap, sym, ◌∙◌, Option, none, some, List, [], ◌∷◌, ◌++◌}
use config_srl.Prelude.Outcome.{Outcome, ok, err, panic, wrap_err}
use config_srl.Prelude.Effect.{Eff, ◌>>=◌}
use mathlib.Core.List.{append-nil, append_assoc, map-append}
use config_srl.Prelude.Calls.{call_wrapped}
use config_srl.Process.{Call, Environment, call_or}
use config_srl.Process.Trace.{forget, Entry, plan_of, logged, failure, Ends}

module _ {H A : Type 0} (message : Call (Unit {0}) → Option String) where
  -- From `before` on, the calls are the first ones of the plan, in its order.
  abbrev pub Followed :
      List (Call (Unit {0})) → List (Entry H) → Outcome A → List (Entry H) → Type 0
  Followed plan before r after =
      (log : List (Entry H)) × (rest : List (Call (Unit {0}))) × (after ≡ before ++ log)
      × (plan_of log ++ rest ≡ plan)
      × Ends message r log rest

module _ (env : Environment) (message : Call (Unit {0}) → Option String) where
  open env use {World, Handle}

  pub record Follows {A : Type 0} (plan : List (Call (Unit {0})))
      (m : Eff (World × List (Entry Handle)) A) : Type 0 where
    pub at : (w : World × List (Entry Handle)) → Followed message plan w.1 (m w).0 (m w).1.1

  -- What was called before does not change how a part ends.
  Ends-append :
      {B : Type 0} (front log : List (Entry Handle)) (r : Outcome B) (rest : List (Call (Unit {0})))
      → Ends message r log rest
      → Ends message r (front ++ log) rest
  Ends-append front log (ok b) rest h = h
  Ends-append front log (err e) rest (f, c, cause, h, e_h) =
      (front ++ f, c, cause, ap (λ l. front ++ l) h ∙ sym (append_assoc front f _), e_h)
  Ends-append front log panic rest (f, c, h) =
      (front ++ f, c, ap (λ l. front ++ l) h ∙ sym (append_assoc front f _))

  plan_of-append :
      (l k : List (Entry Handle)) (rest p q : List (Call (Unit {0})))
      → plan_of l ++ [] ≡ p
      → plan_of k ++ rest ≡ q
      → plan_of (l ++ k) ++ rest ≡ p ++ q
  plan_of-append l k rest p q hp hq =
      rw
        (
          map-append (λ entry. forget entry.0) l k,
          append_assoc (plan_of l) (plan_of k) rest,
          hq,
          sym hp,
          append-nil (plan_of l),
        )
        refl

  module _ {A B : Type 0} (p q : List (Call (Unit {0})))
      (f : A → Eff (World × List (Entry Handle)) B) where
    Followed-bind :
        (before : List (Entry Handle)) (w : World × List (Entry Handle)) (r : Outcome A)
        → Followed message p before r w.1
        → ((a : A) → Followed message q w.1 (f a w).0 (f a w).1.1)
        → let done = ◌>>=◌ (λ _. (r, w)) f w in Followed message (p ++ q) before done.0 done.1.1
    Followed-bind before w (ok a) (l, rest, e, hp, d) next =
        let (k, rest', e', hq, d') = next a in
        (
          l ++ k,
          rest',
          e' ∙ ap (λ x. x ++ k) e ∙ append_assoc before l k,
          plan_of-append l k rest' p q (ap (λ x. plan_of l ++ x) (sym d) ∙ hp) hq,
          Ends-append l k (f a w).0 rest' d',
        )
    Followed-bind before w (err e) (l, rest, after, hp, d) next =
        (l, rest ++ q, after, sym (append_assoc (plan_of l) rest q) ∙ ap (λ x. x ++ q) hp, d)
    Followed-bind before w panic (l, rest, after, hp, d) next =
        (l, rest ++ q, after, sym (append_assoc (plan_of l) rest q) ∙ ap (λ x. x ++ q) hp, d)

    pub Follows-bind :
        (m : Eff (World × List (Entry Handle)) A)
        → Follows p m
        → ((a : A) → Follows q (f a))
        → Follows (p ++ q) (m >>= f)
    Follows-bind m hm hf = record {
      at = λ w. Followed-bind w.1 (m w).1 (m w).0 (hm.at w) (λ a. (hf a).at (m w).1);
    }

  pub Follows-done : {A : Type 0} (a : A) → Follows [] (λ w. (ok a, w))
  Follows-done a = record { at = λ w. ([], [], sym (append-nil w.1), refl, refl) }

  -- A single call, by its answer.
  Followed-call :
      (c : Call Handle) (r : Outcome Handle) (before : List (Entry Handle))
      → message (forget c) ≡ none
      → Followed message (forget c ∷ []) before r (before ++ ((c, r) ∷ []))
  Followed-call c (ok a) before h = ((c, ok a) ∷ [], [], refl, refl, refl)
  Followed-call c (err e) before h =
      ((c, err e) ∷ [], [], refl, refl, ([], c, e, refl, sym (ap (λ m. failure m e) h)))
  Followed-call c panic before h = ((c, panic) ∷ [], [], refl, refl, ([], c, refl))

  Followed-call_or :
      (text : String) (c : Call Handle) (r : Outcome Handle) (before : List (Entry Handle))
      → message (forget c) ≡ some text
      → Followed message (forget c ∷ []) before (wrap_err text r) (before ++ ((c, r) ∷ []))
  Followed-call_or text c (ok a) before h = ((c, ok a) ∷ [], [], refl, refl, refl)
  Followed-call_or text c (err e) before h =
      ((c, err e) ∷ [], [], refl, refl, ([], c, e, refl, sym (ap (λ m. failure m e) h)))
  Followed-call_or text c panic before h = ((c, panic) ∷ [], [], refl, refl, ([], c, refl))

  module _ {B : Type 0} (c : Call Handle) (q : List (Call (Unit {0})))
      (f : Handle → Eff (World × List (Entry Handle)) B) where
    pub Follows-call :
        message (forget c) ≡ none
        → ((h : Handle) → Follows q (f h))
        → Follows (forget c ∷ q) ((logged env).call c >>= f)
    Follows-call h hf =
        Follows-bind (forget c ∷ []) q f ((logged env).call c)
          (record { at = λ w. Followed-call c (env.call c w.0).0 w.1 h }) hf

    pub Follows-call_or :
        (text : String)
        → message (forget c) ≡ some text
        → ((h : Handle) → Follows q (f h))
        → Follows (forget c ∷ q) (call_or (logged env) text c >>= f)
    unfolding call_or call_wrapped
    Follows-call_or text h hf =
        Follows-bind (forget c ∷ []) q f (call_or (logged env) text c)
          (record { at = λ w. Followed-call_or text c (env.call c w.0).0 w.1 h }) hf
