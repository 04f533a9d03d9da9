-- ===== src/Validator/Complete.antt =====
-- A system device in which what the validator dereferences is there, and the check of the status.
use config_srl.Prelude.{
  ℕ, ◌≡◌, ◌≢◌, refl, String, Bool, true, false, not, Option, none, some, nat_eq, if◌then◌else◌,
}
use config_srl.Prelude.Dict.{lookup}
use config_srl.Prelude.Outcome.{ok, deref}
use config_srl.Prelude.Returns.{Returns, ok-Returns, err-Returns, >>=-Returns}
use config_srl.Api.{Managed, srl_config, other_resource}
use config_srl.System.{
  ResourceStatus, pending, failed, other_status, Gvk, SystemCache, SystemDevice,
}
use config_srl.Libraries.{Codec}
use config_srl.Validator.{
  no_observation, expect_srl_config, observe_gvk, observe_entry, get_cr_status,
}

-- The entry has a spec and, if it failed, a reason.
pub record IsCompleteEntry (g : Gvk) : Type 0 where
  pub has_spec : g.spec ≢ none
  pub has_reason : g.status ≡ failed → g.reason ≢ none

-- The counter is set, and all entries are complete.
pub record IsComplete (d : SystemDevice) : Type 0 where
  pub counter : (c : SystemCache) × (n : ℕ) × (d.cache ≡ some c) × (c.exhausted ≡ some n)
  pub entries : (name : String) (g : Gvk) → lookup name d.gvk ≡ some g → IsCompleteEntry g

pub deref-Returns : {A : Type 0} (o : Option A) → o ≢ none → Returns (deref o)
deref-Returns none h = absurd (h refl)
deref-Returns (some a) h = ok-Returns a

pub expect_srl_config-Returns : (mg : Managed) → Returns (expect_srl_config mg)
expect_srl_config-Returns (srl_config cr) = ok-Returns cr
expect_srl_config-Returns (other_resource x) = err-Returns _

observe_gvk-Returns :
    (g : Gvk) (s : ResourceStatus) → (s ≡ failed → g.reason ≢ none) → Returns (observe_gvk g s)
unfolding observe_gvk
observe_gvk-Returns g pending h = ok-Returns _
observe_gvk-Returns g failed h =
    >>=-Returns (deref g.reason) _ (deref-Returns g.reason (h refl)) (λ r e. ok-Returns _)
observe_gvk-Returns g other_status h = ok-Returns _

module _ (lib : Codec) (mg : Managed) (d : SystemDevice) (H : IsComplete d) where
  observe_entry-Returns : Returns (observe_entry lib d mg)
  unfolding observe_entry
  observe_entry-Returns = by_entry (lookup (lib.get_gvk_name mg) d.gvk) refl
    where
      by_entry :
          (o : Option Gvk)
          → lookup (lib.get_gvk_name mg) d.gvk ≡ o
          → Returns (elim o [ none ↦ ok no_observation | some g ↦ observe_gvk g g.status ])
      by_entry none e = ok-Returns _
      by_entry (some g) e =
          observe_gvk-Returns g g.status (H.entries (lib.get_gvk_name mg) g e).has_reason

  pub get_cr_status-Returns : Returns (get_cr_status lib mg (some d))
  unfolding get_cr_status
  get_cr_status-Returns =
      let (c, n, cache, counter) = H.counter in rw (cache, counter) (by_counter (not (nat_eq n 0)))
    where
      by_counter :
          (b : Bool)
          → Returns (
              if b then ok (record no_observation { exhausted = true }) else observe_entry lib d mg)
      by_counter true = ok-Returns _
      by_counter false = observe_entry-Returns
