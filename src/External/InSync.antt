-- ===== src/External/InSync.antt =====
-- The whole way of a write: through the system cache and back, to the checks of the validator.
use mathlib.Core.List.{◌++◌}
use config_srl.Prelude.{
  ◌≡◌, refl, ◌∙◌, String, ◌==◌, true, false, Option, some, List, [], ◌∷◌, eq_iff, if◌then◌else◌,
  arith,
}
use config_srl.Prelude.Lists.{All, append-All}
use config_srl.Prelude.Dict.{lookup}
use config_srl.Prelude.Interleaving.{Interleaving, Interleaving-All}
use config_srl.Prelude.Outcome.{ok}
use config_srl.Api.{SrlConfig, Managed, srl_config}
use config_srl.System.{ResourceAction, Gvk, SystemCache, SystemDevice}
use config_srl.Libraries.{Codec, DeviceModel}
use config_srl.Validator.{no_observation, get_cr_status}
use config_srl.Validator.Status.{get_cr_status_pending}
use config_srl.Validator.Convergence.{IsLawful}
use config_srl.Validator.Diffs.{get_cr_spec_diff}
use config_srl.Gvk.{ExternalObservation}
use config_srl.Gvk.RoundTrip.{gvk_entry-status, get_cr_spec_diff-gvk_entry}
use config_srl.External.{GnmiClient, Origin, cr_target, get_system_config}
use config_srl.External.Set.{IsSystemCache}
use config_srl.External.History.{
  Write, CanWrite, last_written, perform_all, perform_all-get_system_config,
}
use config_srl.External.Concurrent.{Of, NotOf, last_written-Interleaving}

module _ (lib : Codec) (origin_text : Origin → String) (client : GnmiClient) where
  open client use {World}

  -- A write to the resource.
  abbrev pub write_to : SrlConfig → ResourceAction → ExternalObservation → Gvk → String → Write
  write_to cr action obs entry text = record {
    action = action;
    resource = srl_config cr;
    observed = obs;
    entry = entry;
    text = text;
  }

  last_written-last :
      (name : String) (old : Option Gvk) (xs : List Write) (x : Write)
      → Of lib origin_text client name x
      → last_written lib origin_text client name old (xs ++ (x ∷ [])) ≡ some x.entry
  last_written-last name old [] x h = ground (arith, h, eq_iff (lib.get_gvk_name x.resource) name)
  last_written-last name old (y ∷ xs) x h =
      last_written-last name (if lib.get_gvk_name y.resource == name then some y.entry else old) xs
        x h

  module _ {target : String} {Kept : String → Type 0}
      (C : IsSystemCache lib origin_text client target Kept) where
    -- A resource is written last in one sequence of writes, while others are written in another.
    pub perform_all-last_write :
        (cr : SrlConfig) (action : ResourceAction) (obs : ExternalObservation) (entry : Gvk)
        (text : String) (xs ys zs : List Write) (w : World) (d : SystemDevice)
        → Interleaving (xs ++ (write_to cr action obs entry text ∷ [])) ys zs
        → All (NotOf lib origin_text client (lib.get_gvk_name (srl_config cr))) ys
        → All (CanWrite lib origin_text client C) (xs ++ (write_to cr action obs entry text ∷ []))
        → All (CanWrite lib origin_text client C) ys
        → C.device w ≡ some d
        → (w' : World) × (d' : SystemDevice) × (perform_all lib origin_text client zs w
            ≡ (ok tt, w'))
          × ((mg : Managed)
              → cr_target lib origin_text mg ≡ ok target
              → get_system_config lib origin_text client mg w' ≡ (ok (some d'), w'))
          × (d'.cache ≡ d.cache)
          × (lookup (lib.get_gvk_name (srl_config cr)) d'.gvk ≡ some entry)
          × CanWrite lib origin_text client C (write_to cr action obs entry text)
    perform_all-last_write cr action obs entry text xs ys zs w d mix others hx hy s =
        let name = lib.get_gvk_name (srl_config cr) in
        let x = write_to cr action obs entry text in
        let (w', d', done, read, counters, held) =
          perform_all-get_system_config lib origin_text client C zs w d
            (Interleaving-All _ mix hx hy) s in
        (
          w',
          d',
          done,
          read,
          counters,
          held name
              ∙ last_written-Interleaving lib origin_text client name (lookup name d.gvk) mix others
              ∙ last_written-last name (lookup name d.gvk) xs x refl,
          (append-All _ xs (x ∷ []) hx).1.0,
        )

  module _ {target : String} {Kept : String → Type 0}
      (C : IsSystemCache lib origin_text client target Kept) (m : DeviceModel) (L : IsLawful m)
      (keeps : (raw text : String)
        → lib.marshal_properties raw ≡ ok text
        → m.new_config_struct text false ≡ m.new_config_struct raw false) where
    -- On a server that keeps the system cache as `IsSystemCache` says and whose cache is not
    -- exhausted, with the laws of `IsLawful`, and if JSON marshalling keeps what a spec parses to:
    -- let a resource with a spec that parses be written last in one sequence of writes, and let
    -- another sequence, of other resources, reach the server at the same time, in any interleaving.
    -- If all writes can be made and sent, they all succeed. What the resource then reads shows no
    -- difference to its spec, and its status is pending, and neither failed nor exhausted.
    pub perform_all-get_cr_spec_diff :
        (cr : SrlConfig) (action : ResourceAction) (obs : ExternalObservation) (entry : Gvk)
        (text : String) (xs ys zs : List Write) (w : World) (d : SystemDevice) (cache : SystemCache)
        (config : m.Config)
        → Interleaving (xs ++ (write_to cr action obs entry text ∷ [])) ys zs
        → All (NotOf lib origin_text client (lib.get_gvk_name (srl_config cr))) ys
        → All (CanWrite lib origin_text client C) (xs ++ (write_to cr action obs entry text ∷ []))
        → All (CanWrite lib origin_text client C) ys
        → C.device w ≡ some d
        → d.cache ≡ some cache
        → cache.exhausted ≡ some 0
        → m.new_config_struct cr.spec.properties false ≡ ok config
        → (w' : World) × (d' : SystemDevice) × (perform_all lib origin_text client zs w
            ≡ (ok tt, w'))
          × (get_system_config lib origin_text client (srl_config cr) w' ≡ (ok (some d'), w'))
          × (get_cr_spec_diff m lib (srl_config cr) (some d')
              ≡ ok (record { deletes = []; updates = [] }))
          × (get_cr_status lib (srl_config cr) (some d')
              ≡ ok (record no_observation { exists = true; pending = true }))
    perform_all-get_cr_spec_diff cr action obs entry text xs ys zs w d cache config mix others hx hy
          s e n parses =
        let (w', d', done, read, counters, found, last) =
          perform_all-last_write C cr action obs entry text xs ys zs w d mix others hx hy s in
        (
          w',
          d',
          done,
          read (srl_config cr) last.of_target,
          get_cr_spec_diff-gvk_entry lib m L keeps cr obs action d' parses last.made found,
          get_cr_status_pending lib (srl_config cr) d' (counters ∙ e) n found
              (gvk_entry-status lib (srl_config cr) obs action last.made),
        )
