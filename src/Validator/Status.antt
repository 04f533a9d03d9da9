-- ===== src/Validator/Status.antt =====
-- What `get_cr_status` reports of a resource.
use config_srl.Prelude.{
  ℕ, zero, suc, ◌≡◌, ◌≢◌, ◌↔◌, refl, true, Option, none, some, arith, is_some, inl, inr,
  Option-cases,
}
use mathlib.Core.Option
use config_srl.Prelude.Dict.{lookup}
use config_srl.Prelude.Outcome.{ok}
use config_srl.Api.{Managed}
use config_srl.System.{
  Gvk, SystemCache, SystemDevice, ResourceStatus, pending, failed, other_status,
}
use config_srl.Libraries.{Codec}
use config_srl.Validator.{CrObservation, no_observation, get_cr_status, observe_gvk, observe_entry}

-- The verdict `o` on a resource with the entry `entry`, in a cache with the counter `exhausted`.
pub record IsVerdict (exhausted : ℕ) (entry : Option Gvk) (o : CrObservation) : Type 0 where
  pub exhausted_iff : (o.exhausted ≡ true) ↔ (exhausted ≢ 0)
  pub exists_iff : (o.exists ≡ true) ↔ ((exhausted ≡ 0) × (is_some entry ≡ true))
  pub pending_iff :
      (o.pending ≡ true) ↔ ((exhausted ≡ 0) × (Option.map (λ gvk. gvk.status) entry ≡ some pending))
  pub failed_iff :
      (o.failed ≡ true) ↔ ((exhausted ≡ 0) × (Option.map (λ gvk. gvk.status) entry ≡ some failed))
  pub reason : o.failed ≡ true → Option.map (λ gvk. gvk.reason) entry ≡ some (some o.message)

-- A failed entry has a reason, as the cache writes it.
abbrev pub HasReason : Option Gvk → Type 0
HasReason none = Unit
HasReason (some gvk) = gvk.status ≡ failed → is_some gvk.reason ≡ true

observe_gvk-IsVerdict :
    (gvk : Gvk) (s : ResourceStatus)
    → gvk.status ≡ s
    → HasReason (some gvk)
    → (o : CrObservation) × (observe_gvk gvk s ≡ ok o) × IsVerdict 0 (some gvk) o
unfolding observe_gvk
observe_gvk-IsVerdict gvk pending e h = (_, refl, ground arith)
observe_gvk-IsVerdict gvk failed e h = elim (Option-cases gvk.reason) [
  | inl nil ↦ absurd (ground (arith, h e))
  | inr (text, f) ↦
      (record no_observation { exists = true; failed = true; message = text }, rw f, ground arith)
]
observe_gvk-IsVerdict gvk other_status e h = (_, refl, ground arith)

observe_entry-IsVerdict :
    (lib : Codec) (system : SystemDevice) (mg : Managed) (entry : Option Gvk)
    → lookup (lib.get_gvk_name mg) system.gvk ≡ entry
    → HasReason entry
    → (o : CrObservation) × (observe_entry lib system mg ≡ ok o) × IsVerdict 0 entry o
unfolding observe_entry
observe_entry-IsVerdict lib system mg none e h =
    (no_observation, rw (e, observe_entry), ground arith)
observe_entry-IsVerdict lib system mg (some gvk) e h =
    let (o, f, v) = observe_gvk-IsVerdict gvk gvk.status refl h in (o, rw (e, observe_entry) f, v)

-- On a system device whose counter is set and whose entry, if failed, has a reason, the check
-- returns, and each flag says what the counter and the entry say: a cache that is exhausted hides
-- the entry, and the message of a failure is the entry's reason.
pub get_cr_status_correct :
    (lib : Codec) (mg : Managed) (system : SystemDevice) (cache : SystemCache) (exhausted : ℕ)
    → system.cache ≡ some cache
    → cache.exhausted ≡ some exhausted
    → HasReason (lookup (lib.get_gvk_name mg) system.gvk)
    → (o : CrObservation) × (get_cr_status lib mg (some system) ≡ ok o)
      × IsVerdict exhausted (lookup (lib.get_gvk_name mg) system.gvk) o
unfolding get_cr_status
get_cr_status_correct lib mg system cache zero e f h =
    let (o, g, v) = observe_entry-IsVerdict lib system mg _ refl h in (o, simp (e, f) g, v)
get_cr_status_correct lib mg system cache (suc n) e f h =
    (record no_observation { exhausted = true }, simp (e, f) (ground arith), ground arith)

pub get_cr_status_pending :
    (lib : Codec) (mg : Managed) (system : SystemDevice) {cache : SystemCache} {gvk : Gvk}
    → system.cache ≡ some cache
    → cache.exhausted ≡ some 0
    → lookup (lib.get_gvk_name mg) system.gvk ≡ some gvk
    → gvk.status ≡ pending
    → get_cr_status lib mg (some system)
      ≡ ok (record no_observation { exists = true; pending = true })
unfolding get_cr_status observe_gvk
get_cr_status_pending lib mg system e f g h =
    simp (e, f) (rw (g, observe_entry) (rw (h, observe_gvk)))
