-- ===== src/Process/Start.antt =====
-- What the two commands call when they start, in order, and what a failed start returns.
use config_srl.Prelude.{
  String, Bool, true, false, ◌≡◌, refl, ap, sym, ◌∙◌, ◌++◌, Option, List, [], ◌∷◌,
}
use config_srl.Prelude.Outcome.{Outcome, ok}
use config_srl.Prelude.Effect.{Eff, ◌>>◌, >>=-ok}
use mathlib.Core.List.{append-nil, append_assoc}
use config_srl.Process.{
  set_logger, start_profile, serve_pprof, stop_profile, defer_call, run_call, with_profiler,
  with_logger, Flags, Names, Call, Environment,
}
use config_srl.Process.Worker.{worker_body, worker_start}
use config_srl.Process.Reconciler.{reconciler_body, reconciler_start}
use config_srl.Process.Trace.{logged, Entry, plan_of, Ends}
use config_srl.Process.Follows.{Follows}
use config_srl.Process.Plan.{
  Plan, worker_plan, worker_message, worker_body-Follows, reconciler_plan, reconciler_message,
  reconciler_body-Follows,
}

-- What is called around the body of a command: the logger's set-up before it and, with the profiler,
-- the profile's start before it and the stop of the same profile after it.
abbrev LoggerSet : {H : Type 0} → Bool → List (Entry H) → Type 0
LoggerSet false log = log ≡ []
LoggerSet {H} true log = (r : Outcome H) × (log ≡ (set_logger, r) ∷ [])

abbrev Profiled : {H : Type 0} → Bool → List (Entry H) → List (Entry H) → Type 0
Profiled false opening closing = (opening ≡ []) × (closing ≡ [])
Profiled {H} true opening closing =
    (profile : H) × (r : Outcome H) × (r' : Outcome H) × (opening
      ≡ (start_profile, ok profile) ∷ (serve_pprof, r) ∷ [])
    × (closing ≡ (stop_profile profile, r') ∷ [])

-- A whole command: what surrounds its body, and the body following its plan.
abbrev pub Started :
    {H : Type 0}
    → (Call (Unit {0}) → Option String)
    → Plan
    → Flags
    → List (Entry H)
    → Outcome (Unit {0})
    → List (Entry H)
    → Type 0
Started {H} message plan f before r after =
    (logger : List (Entry H)) × (opening : List (Entry H)) × (log : List (Entry H))
    × (closing : List (Entry H)) × (rest : Plan) × (after
        ≡ before ++ (logger ++ (opening ++ (log ++ closing))))
    × LoggerSet f.debug logger
    × Profiled f.profiler opening closing
    × (plan_of log ++ rest ≡ plan)
    × Ends message r log rest

logs_append :
    {H : Type 0} (before : List (Entry H)) (x y : Entry H) (log closing : List (Entry H))
    → (((before ++ (x ∷ [])) ++ (y ∷ [])) ++ log) ++ closing ≡ before ++ (x ∷ y ∷ (log ++ closing))
logs_append before x y log closing =
    rw
      (
        append_assoc ((before ++ (x ∷ [])) ++ (y ∷ [])) log closing,
        append_assoc (before ++ (x ∷ [])) (y ∷ []) (log ++ closing),
        append_assoc before (x ∷ []) (y ∷ (log ++ closing)),
      )
      refl

module _ (env : Environment) (message : Call (Unit {0}) → Option String) (plan : Plan)
    (body : Eff (logged env).World (Unit {0})) (follows : Follows env message plan body) where
  -- A run of the body with what the profiler calls around it.
  abbrev Around : Bool → List (Entry env.Handle) → Outcome (Unit {0}) × (logged env).World → Type 0
  Around profiler before done =
      (opening : List (Entry env.Handle)) × (log : List (Entry env.Handle)) × (closing : List
        (Entry env.Handle))
      × (rest : Plan) × (done.1.1 ≡ before ++ (opening ++ (log ++ closing)))
      × Profiled profiler opening closing
      × (plan_of log ++ rest ≡ plan)
      × Ends message done.0 log rest

  deferred-Around :
      (before : List (Entry env.Handle)) (w : env.World) (profile : env.Handle)
      → Around true before (
          defer_call
            (logged env)
            (stop_profile profile)
            (run_call (logged env) serve_pprof >> body)
            (w, before ++ ((start_profile, ok profile) ∷ [])))
  unfolding defer_call run_call
  deferred-Around before w profile =
      let (r, w1) = env.call serve_pprof w in
      let opened = before ++ ((start_profile, ok profile) ∷ []) in
      let (log, rest, e, p, ends) = follows.at (w1, opened ++ ((serve_pprof, r) ∷ [])) in
      let w2 = (body (w1, opened ++ ((serve_pprof, r) ∷ []))).1.0 in
      let stopped = (env.call (stop_profile profile) w2).0 in
      (
        (start_profile, ok profile) ∷ (serve_pprof, r) ∷ [],
        log,
        (stop_profile profile, stopped) ∷ [],
        rest,
        ap (λ l. l ++ ((stop_profile profile, stopped) ∷ [])) e
            ∙ logs_append before (start_profile, ok profile) (serve_pprof, r) log _,
        (profile, r, stopped, refl, refl),
        p,
        ends,
      )

  with_profiler-Around :
      (profiler : Bool) (w : (logged env).World) (profile : env.Handle)
      → (env.call start_profile w.0).0 ≡ ok profile
      → Around profiler w.1 (with_profiler (logged env) profiler body w)
  unfolding with_profiler
  with_profiler-Around false w profile h =
      let (log, rest, e, p, ends) = follows.at w in
      ([], log, [], rest, e ∙ ap (λ l. w.1 ++ l) (sym (append-nil log)), (refl, refl), p, ends)
  with_profiler-Around true w profile h =
      let w1 = (env.call start_profile w.0).1 in
      rw
        (
          >>=-ok ((logged env).call start_profile)
              (λ profile'.
                defer_call (logged env) (stop_profile profile')
                  (run_call (logged env) serve_pprof >> body))
              w h,
          h,
        )
        (deferred-Around w.1 w1 profile)

  start-Started :
      (f : Flags) (w : (logged env).World)
      → ((w' : env.World) → (profile : env.Handle) × ((env.call start_profile w').0 ≡ ok profile))
      → let done =
          with_logger (logged env) f.debug (with_profiler (logged env) f.profiler body) w in
        Started message plan f w.1 done.0 done.1.1
  unfolding with_logger run_call
  start-Started f w starts = debug_cases f.debug
    where
      debug_cases :
          (debug : Bool)
          → let done =
              with_logger (logged env) debug (with_profiler (logged env) f.profiler body) w in
            (logger : List (Entry env.Handle)) × (opening : List (Entry env.Handle)) × (log : List
              (Entry env.Handle))
            × (closing : List (Entry env.Handle)) × (rest : Plan) × (done.1.1
                ≡ w.1 ++ (logger ++ (opening ++ (log ++ closing))))
            × LoggerSet debug logger
            × Profiled f.profiler opening closing
            × (plan_of log ++ rest ≡ plan)
            × Ends message done.0 log rest
      debug_cases false =
          let (profile, h) = starts w.0 in
          let (opening, log, closing, rest, e, around, p, ends) =
            with_profiler-Around f.profiler w profile h in
          ([], opening, log, closing, rest, e, refl, around, p, ends)
      debug_cases true =
          let (r, w1) = env.call set_logger w.0 in
          let (profile, h) = starts w1 in
          let (opening, log, closing, rest, e, around, p, ends) =
            with_profiler-Around f.profiler (w1, w.1 ++ ((set_logger, r) ∷ [])) profile h in
          (
            (set_logger, r) ∷ [],
            opening,
            log,
            closing,
            rest,
            e ∙ append_assoc w.1 ((set_logger, r) ∷ []) (opening ++ (log ++ closing)),
            (r, refl),
            around,
            p,
            ends,
          )

module _ (names : Names) (env : Environment) where
  -- Started by the worker command, the calls are the set-up of the logger if `debug` is set, the
  -- first calls of the plan, in its order, and, around these, if `profiler` is set, the start of a
  -- profile, the profile's server, and at the end the stop of that same profile. The command
  -- returns no error only if all calls of the plan were made; if it returns an error, this is the
  -- error of the last call that was made of the plan, in the message of that call, if it has one;
  -- and it panics only with the last of these calls. This takes that a profile can be started.
  pub worker_start-Started :
      (f : Flags) (w : (logged env).World)
      → ((w' : env.World) → (profile : env.Handle) × ((env.call start_profile w').0 ≡ ok profile))
      → let done = worker_start names (logged env) f w in
        Started worker_message (worker_plan names f) f w.1 done.0 done.1.1
  unfolding worker_start
  worker_start-Started f w starts =
      start-Started env worker_message (worker_plan names f) (worker_body names (logged env) f)
        (worker_body-Follows names env f) f w starts

  -- The same of the reconciler command, with its plan and its messages.
  pub reconciler_start-Started :
      (f : Flags) (w : (logged env).World)
      → ((w' : env.World) → (profile : env.Handle) × ((env.call start_profile w').0 ≡ ok profile))
      → let done = reconciler_start names (logged env) f w in
        Started reconciler_message (reconciler_plan names f) f w.1 done.0 done.1.1
  unfolding reconciler_start
  reconciler_start-Started f w starts =
      start-Started env reconciler_message (reconciler_plan names f)
        (reconciler_body names (logged env) f) (reconciler_body-Follows names env f) f w starts
