-- ===== src/Process/Handles.antt =====
-- The objects that the calls of a start are made on and make, each with what it is used as (start.go
-- of cmd/workercmd and cmd/reconcilercmd).
use config_srl.Prelude.{◌≡◌, refl, sym, inl, inr, Option, none, some, List, [], ◌∷◌, ◌++◌}
use mathlib.Core.Path.{subst}
use mathlib.Core.List.{append-nil, append_assoc}
use config_srl.Prelude.Lists.{All, Occurs}
use config_srl.Prelude.Outcome.{Outcome, ok}
use config_srl.Process.{
  TargetController, Reconciling, managed_resources, targets, Call, start_profile, new_client,
  new_cache, stop_profile, new_registrator, start_target_controller, new_reconciler_controller,
  start_reconciler_controller, new_manager, complete_controller, complete_webhook,
  add_healthz_check, add_readyz_check, start_manager,
}
use config_srl.Process.Trace.{Entry}

-- The kinds of objects.
pub data Role : Type 0 where
  registrator client cache manager reconciler profile : Role

-- The kind of the object that a call makes.
abbrev pub makes : {H : Type 0} → Call H → Option Role
makes (new_registrator o) = some registrator
makes (new_client scheme) = some client
makes new_cache = some cache
makes (new_manager o) = some manager
makes (new_reconciler_controller a h) = some reconciler
makes start_profile = some profile
makes _ = none

Occurs-append : {A : Type 0} (a : A) (xs ys : List A) → Occurs a xs → Occurs a (xs ++ ys)
Occurs-append a [] ys h = absurd h
Occurs-append a (x ∷ xs) ys (inl e) = inl e
Occurs-append a (x ∷ xs) ys (inr h) = inr (Occurs-append a xs ys h)

pub Occurs-last : {A : Type 0} (a : A) (xs : List A) → Occurs a (xs ++ (a ∷ []))
Occurs-last a [] = inl refl
Occurs-last a (x ∷ xs) = inr (Occurs-last a xs)

-- The objects that a call is made on, each with the kind that it has to be of.
module _ {H : Type 0} where
  abbrev pub of_targets : TargetController H → List (Role × H)
  of_targets tc =
      (cache, tc.cache)
      ∷ (cache, tc.grpc_server.cache)
      ∷ (client, tc.grpc_server.client)
      ∷ (registrator, tc.registrator)
      ∷ (cache, tc.start_stop.cache)
      ∷ (client, tc.start_stop.client)
      ∷ (registrator, tc.start_stop.registrator)
      ∷ []

  abbrev pub of_reconciling : Reconciling H → List (Role × H)
  of_reconciling (managed_resources k poll reg) = (registrator, reg) ∷ []
  of_reconciling (targets tc vendor poll) = of_targets tc

  abbrev pub needs : Call H → List (Role × H)
  needs (stop_profile h) = (profile, h) ∷ []
  needs (start_target_controller tc) = of_targets tc
  needs (new_reconciler_controller a h) = (registrator, h) ∷ []
  needs (start_reconciler_controller h) = (reconciler, h) ∷ []
  needs (complete_controller h c) = (manager, h) ∷ of_reconciling c.reconciler
  needs (complete_webhook h k) = (manager, h) ∷ []
  needs (add_healthz_check h n) = (manager, h) ∷ []
  needs (add_readyz_check h n) = (manager, h) ∷ []
  needs (start_manager h) = (manager, h) ∷ []
  needs _ = []

  -- An object of this kind was made in the log.
  abbrev pub Made : List (Entry H) → Role × H → Type 0
  Made log n = (c : Call H) × (makes c ≡ some n.0) × Occurs (c, ok n.1) log

  -- Each call of the second log is made on objects that were made before it.
  abbrev pub Owned : List (Entry H) → List (Entry H) → Type 0
  Owned before [] = Unit
  Owned before ((c, r) ∷ rest) = All (Made before) (needs c) × Owned (before ++ ((c, r) ∷ [])) rest

  pub Made-append : (log more : List (Entry H)) (n : Role × H) → Made log n → Made (log ++ more) n
  Made-append log more n (c, e, o) = (c, e, Occurs-append (c, ok n.1) log more o)

  pub Owned-append :
      (before log : List (Entry H)) (c : Call H) (r : Outcome H)
      → Owned before log
      → All (Made (before ++ log)) (needs c)
      → Owned before (log ++ ((c, r) ∷ []))
  Owned-append before [] c r h n = (subst (λ l. All (Made l) (needs c)) (append-nil before) n, tt)
  Owned-append before ((d, q) ∷ log) c r (m, h) n = (
    m,
    Owned-append (before ++ ((d, q) ∷ [])) log c r h
        (subst (λ l. All (Made l) (needs c)) (sym (append_assoc before ((d, q) ∷ []) log)) n),
  )
