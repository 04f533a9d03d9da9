-- ===== src/External/Complete.antt =====
-- After writes of the client the system cache is one on which the validator's checks return.
use config_srl.Prelude.{
  ◌≡◌, sym, ◌∙◌, ap, String, ◌==◌, Option, none, some, List, [], ◌∷◌, true, false, Bool,
  if◌then◌else◌, arith,
}
use config_srl.Prelude.Lists.{All}
use config_srl.Prelude.Dict.{lookup}
use config_srl.Prelude.Outcome.{ok, panic}
use config_srl.Prelude.Returns.{Returns}
use config_srl.Api.{Managed}
use config_srl.System.{ResourceAction, Gvk, SystemDevice}
use config_srl.Libraries.{Codec, DeviceModel}
use config_srl.Validator.{get_cr_status, validate_cr_spec_update, validate_cr_spec_delete}
use config_srl.Validator.Diffs.{get_cr_spec_diff, get_cr_actual_diff}
use config_srl.Validator.Complete.{IsCompleteEntry, IsComplete, get_cr_status-Returns}
use config_srl.Validator.Returns.{
  ModelReturns, get_cr_spec_diff-Returns, get_cr_actual_diff-Returns,
  validate_cr_spec_update-Returns, validate_cr_spec_delete-Returns,
}
use config_srl.Gvk.{ExternalObservation, gvk_entry}
use config_srl.External.{GnmiClient, Origin, cr_target, get_system_config}
use config_srl.External.Set.{IsSystemCache}
use config_srl.External.History.{
  Write, CanWrite, last_written, perform_all, perform_all-get_system_config,
}

module _ (lib : Codec) where
  gvk_entry-IsCompleteEntry :
      (mg : Managed) (obs : ExternalObservation) (action : ResourceAction) {g : Gvk}
      → gvk_entry lib mg obs action ≡ ok g
      → IsCompleteEntry g
  unfolding gvk_entry
  gvk_entry-IsCompleteEntry mg obs action {g} h = record {
    has_spec = λ e. ground arith;
    has_reason = λ s e. ground arith;
  }

module _ (lib : Codec) (origin_text : Origin → String) (client : GnmiClient) where
  open client use {World}

  module _ {target : String} {Kept : String → Type 0}
      (C : IsSystemCache lib origin_text client target Kept) where
    last_written-IsCompleteEntry :
        (name : String) (old : Option Gvk) (xs : List Write)
        → All (CanWrite lib origin_text client C) xs
        → ((g : Gvk) → old ≡ some g → IsCompleteEntry g)
        → (g : Gvk) → last_written lib origin_text client name old xs ≡ some g
        → IsCompleteEntry g
    last_written-IsCompleteEntry name old [] c h = h
    last_written-IsCompleteEntry name old (x ∷ xs) (c, cs) h =
        last_written-IsCompleteEntry name
          (if lib.get_gvk_name x.resource == name then some x.entry else old) xs cs
          (by_name (lib.get_gvk_name x.resource == name))
      where
        by_name :
            (b : Bool) (g : Gvk) → (if b then some x.entry else old) ≡ some g → IsCompleteEntry g
        by_name true g e =
            gvk_entry-IsCompleteEntry lib x.resource x.observed x.action
              (c.made ∙ ap (λ o. elim o [ none ↦ panic | some entry ↦ ok entry ]) e)
        by_name false g e = h g e

    -- On a server that keeps the system cache as `IsSystemCache` says, and with a device model of
    -- which no call panics: let the cache's counter be set, and let its entries each have a spec,
    -- and a reason if failed. Any sequence of writes that can be made and sent succeeds and leaves
    -- the cache so. What any resource of the target then reads is a device on which its status, its
    -- diff to the stored spec, its diff to any running configuration, and both checks of its spec
    -- against this are computed without a panic.
    pub perform_all-IsComplete :
        (m : DeviceModel)
        → ModelReturns m
        → (xs : List Write) (w : World) (d : SystemDevice)
        → All (CanWrite lib origin_text client C) xs
        → C.device w ≡ some d
        → IsComplete d
        → (w' : World) × (d' : SystemDevice) × (perform_all lib origin_text client xs w
            ≡ (ok tt, w'))
          × IsComplete d'
          × ((mg : Managed) (running : String)
              → cr_target lib origin_text mg ≡ ok target
              → (get_system_config lib origin_text client mg w' ≡ (ok (some d'), w'))
                × Returns (get_cr_status lib mg (some d'))
                × Returns (get_cr_spec_diff m lib mg (some d'))
                × Returns (get_cr_actual_diff m mg running)
                × Returns (validate_cr_spec_update m mg running)
                × Returns (validate_cr_spec_delete m mg running))
    perform_all-IsComplete m R xs w d cs s H =
        let (w', d', done, read, cache, held) =
          perform_all-get_system_config lib origin_text client C xs w d cs s in
        let (c, n, has_cache, counter) = H.counter in
        let complete : IsComplete d' = record {
          counter = (c, n, cache ∙ has_cache, counter);
          entries = λ name g e.
              last_written-IsCompleteEntry name (lookup name d.gvk) xs cs (H.entries name) g
                (sym (held name) ∙ e);
        } in
        (
          w',
          d',
          done,
          complete,
          λ mg running t. (
            read mg t,
            get_cr_status-Returns lib mg d' complete,
            get_cr_spec_diff-Returns m R lib mg d' complete,
            get_cr_actual_diff-Returns m R mg running,
            validate_cr_spec_update-Returns m R mg running,
            validate_cr_spec_delete-Returns m R mg running,
          ),
        )
