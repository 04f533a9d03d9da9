-- ===== src/Process/Owned.antt =====
-- The objects that the calls of the two starts are made on (start.go of cmd/workercmd and
-- cmd/reconcilercmd): one rule for each way in which they make a call.
pub mod Starts
use config_srl.Prelude.{
  ◌≡◌, refl, sym, ◌∙◌, ap, ◌⊎◌, inl, inr, String, Bool, true, false, Option, none, some, List, [],
  ◌∷◌, ◌++◌,
}
use mathlib.Core.Path.{subst}
use config_srl.Prelude.Lists.{All, All-map, Occurs}
use config_srl.Prelude.Outcome.{Outcome, ok, err, panic, wrap_err}
use config_srl.Prelude.Effect.{Eff, lift, ◌>>=◌, ◌>>◌}
use config_srl.Prelude.Calls.{call_wrapped}
use config_srl.Process.{
  Call, Environment, call_or, run_call, defer_call, with_logger, with_profiler, run_manager, Flags,
  Names, set_logger, start_profile, serve_pprof, stop_profile,
}
use config_srl.Process.Trace.{Entry, logged}
use config_srl.Process.Worker.{worker_body, worker_start}
use config_srl.Process.Reconciler.{reconciler_body, reconciler_start}
use config_srl.Process.Handles.{
  Role, registrator, client, cache, manager, reconciler, profile, makes, needs, Made, Owned,
  Owned-append, Made-append, Occurs-last,
}

module _ (env : Environment) where
  open env use {World, Handle}

  -- After a part of a start: all calls were made on objects of the log, which has these objects.
  abbrev pub Holds : List (Role × Handle) → List (Entry Handle) → Type 0
  Holds objects log = Owned [] log × All (Made log) objects

  pub record Safe {A : Type 0} (objects : List (Role × Handle)) (m : Eff (logged env).World A)
      : Type 0 where
    pub at : (w : (logged env).World) → Holds objects w.1 → Holds objects (m w).1.1

  pub Safe-lift :
      {A : Type 0} (objects : List (Role × Handle)) (r : Outcome A) → Safe objects (lift r)
  Safe-lift objects r = record { at = λ w h. h }

  All-Occurs : {A : Type 0} (P : A → Type 0) (xs : List A) (a : A) → All P xs → Occurs a xs → P a
  All-Occurs P [] a h o = absurd o
  All-Occurs P (x ∷ xs) a (p, h) (inl e) = subst P (sym e) p
  All-Occurs P (x ∷ xs) a (p, h) (inr o) = All-Occurs P xs a h o

  -- A call on objects that there are leaves them there.
  call-Holds :
      (objects : List (Role × Handle)) (c : Call Handle) (r : Outcome Handle)
      (log : List (Entry Handle))
      → All (λ n. Occurs n objects) (needs c)
      → Holds objects log
      → Holds objects (log ++ ((c, r) ∷ []))
  call-Holds objects c r log n (owned, made) = (
    Owned-append [] log c r owned (
        All-map (λ x. Occurs x objects) (Made log) (λ x o. All-Occurs (Made log) objects x made o)
          (needs c) n),
    All-map (Made log) (Made (log ++ ((c, r) ∷ []))) (λ x. Made-append log ((c, r) ∷ []) x) objects
        made,
  )

  -- The objects that there are with the one that a call makes, if it makes one.
  abbrev pub gained : Option Role → Handle → List (Role × Handle) → List (Role × Handle)
  gained none h objects = objects
  gained (some role) h objects = (role, h) ∷ objects

  gain-Holds :
      (objects : List (Role × Handle)) (c : Call Handle) (r : Outcome Handle) (a : Handle)
      (made : Option Role) (log : List (Entry Handle))
      → makes c ≡ made
      → r ≡ ok a
      → Holds objects (log ++ ((c, r) ∷ []))
      → Holds (gained made a objects) (log ++ ((c, r) ∷ []))
  gain-Holds objects c r a none log e f h = h
  gain-Holds objects c r a (some role) log e f (owned, held) = (
    owned,
    ((c, e, subst (λ x. Occurs (c, x) (log ++ ((c, r) ∷ []))) f (Occurs-last (c, r) log)), held),
  )

  drop-Holds :
      (made : Option Role) (a : Handle) (objects : List (Role × Handle)) (log : List (Entry Handle))
      → Holds (gained made a objects) log
      → Holds objects log
  drop-Holds none a objects log h = h
  drop-Holds (some role) a objects log (owned, held) = (owned, held.1)

  -- What runs after a call, by the call's answer `r` and what the call returns for it.
  after-Holds :
      {A : Type 0} (objects : List (Role × Handle)) (c : Call Handle)
      (next : Handle → Eff (logged env).World A)
      → All (λ n. Occurs n objects) (needs c)
      → ((a : Handle) → Safe (gained (makes c) a objects) (next a))
      → (w : (logged env).World) → Holds objects w.1
      → (r returned : Outcome Handle) (w1 : World) → ((a : Handle) → returned ≡ ok a → r ≡ ok a)
      → Holds objects (◌>>=◌ (λ _. (returned, (w1, w.1 ++ ((c, r) ∷ [])))) next w).1.1
  after-Holds objects c next n rest w h r (ok a) w1 same =
      let called = call-Holds objects c r w.1 n h in
      let log = w.1 ++ ((c, r) ∷ []) in
      drop-Holds (makes c) a objects (next a (w1, log)).1.1
        ((rest a).at (w1, log) (gain-Holds objects c r a (makes c) w.1 refl (same a refl) called))
  after-Holds objects c next n rest w h r (err x) w1 same = call-Holds objects c r w.1 n h
  after-Holds objects c next n rest w h r panic w1 same = call-Holds objects c r w.1 n h

  wrap_err-same :
      (message : String) (r : Outcome Handle) (a : Handle) → wrap_err message r ≡ ok a → r ≡ ok a
  wrap_err-same message (ok b) a h = h
  wrap_err-same message (err e) a h = cc h
  wrap_err-same message panic a h = cc h

  pub Safe-call_or :
      {A : Type 0} (objects : List (Role × Handle)) (message : String) (c : Call Handle)
      (next : Handle → Eff (logged env).World A)
      → All (λ n. Occurs n objects) (needs c)
      → ((a : Handle) → Safe (gained (makes c) a objects) (next a))
      → Safe objects (call_or (logged env) message c >>= next)
  unfolding call_or call_wrapped
  Safe-call_or objects message c next n rest = record {
    at = λ w h.
        let (r, w1) = env.call c w.0 in
        after-Holds objects c next n rest w h r (wrap_err message r) w1 (wrap_err-same message r);
  }

  pub Safe-call :
      {A : Type 0} (objects : List (Role × Handle)) (c : Call Handle)
      (next : Handle → Eff (logged env).World A)
      → All (λ n. Occurs n objects) (needs c)
      → ((a : Handle) → Safe (gained (makes c) a objects) (next a))
      → Safe objects ((logged env).call c >>= next)
  Safe-call objects c next n rest = record {
    at = λ w h.
        let (r, w1) = env.call c w.0 in after-Holds objects c next n rest w h r r w1 (λ a e. e);
  }

  pub Safe-run_call :
      {A : Type 0} (objects : List (Role × Handle)) (c : Call Handle)
      (body : Eff (logged env).World A)
      → All (λ n. Occurs n objects) (needs c)
      → Safe objects body
      → Safe objects (run_call (logged env) c >> body)
  unfolding run_call
  Safe-run_call objects c body n rest = record {
    at = λ w h.
        let (r, w1) = env.call c w.0 in
        rest.at (w1, w.1 ++ ((c, r) ∷ [])) (call-Holds objects c r w.1 n h);
  }

  pub Safe-defer_call :
      {A : Type 0} (objects : List (Role × Handle)) (c : Call Handle)
      (body : Eff (logged env).World A)
      → All (λ n. Occurs n objects) (needs c)
      → Safe objects body
      → Safe objects (defer_call (logged env) c body)
  unfolding defer_call run_call
  Safe-defer_call objects c body n inner = record {
    at = λ w h.
        let w' = (body w).1 in call-Holds objects c (env.call c w'.0).0 w'.1 n (inner.at w h);
  }
