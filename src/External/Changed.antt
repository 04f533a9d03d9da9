-- ===== src/External/Changed.antt =====
-- A resource whose spec is edited after it was written to the system cache.
use mathlib.Core.List.{◌++◌}
use config_srl.Prelude.Dict.{lookup}
use config_srl.Prelude.{◌≡◌, ◌↔◌, ap, ◌∙◌, String, false, some, List, [], ◌∷◌}
use config_srl.Prelude.Lists.{All}
use config_srl.Prelude.Interleaving.{Interleaving}
use config_srl.Prelude.Outcome.{ok}
use config_srl.Api.{SrlConfig, srl_config}
use config_srl.System.{ResourceAction, Gvk, SystemDevice}
use config_srl.Libraries.{Codec, DeviceModel}
use config_srl.Validator.{CrSpecDiffObservation}
use config_srl.Validator.Changes.{IsEmpty, get_cr_spec_diff_correct}
use config_srl.Validator.Convergence.{IsLawful}
use config_srl.Validator.Diffs.{get_cr_spec_diff}
use config_srl.Gvk.{ExternalObservation}
use config_srl.Gvk.RoundTrip.{gvk_entry-spec}
use config_srl.External.{GnmiClient, Origin, cr_target, get_system_config}
use config_srl.External.Set.{IsSystemCache}
use config_srl.External.History.{Write, CanWrite, perform_all}
use config_srl.External.Concurrent.{NotOf}
use config_srl.External.InSync.{write_to, perform_all-last_write}

module _ (lib : Codec) (origin_text : Origin → String) (client : GnmiClient) where
  open client use {World}

  module _ {target : String} {Kept : String → Type 0}
      (C : IsSystemCache lib origin_text client target Kept) (m : DeviceModel) (L : IsLawful m)
      (keeps : (raw text : String)
        → lib.marshal_properties raw ≡ ok text
        → m.new_config_struct text false ≡ m.new_config_struct raw false) where
    -- On a server that keeps the system cache as `IsSystemCache` says, with the laws of `IsLawful`,
    -- and if JSON marshalling keeps what a spec parses to: let a resource with a spec that parses
    -- be written last in one sequence of writes, and let another sequence, of other resources,
    -- reach the server at the same time, in any interleaving. If all writes can be made and sent,
    -- they all succeed. Any later version of the resource that keeps its name and its target, and
    -- has a spec that parses, then reads the system cache without an error, and the check on what
    -- it reads shows no difference exactly if its spec parses to the configuration that was written.
    pub perform_all-edited :
        (cr : SrlConfig) (action : ResourceAction) (obs : ExternalObservation) (entry : Gvk)
        (text : String) (xs ys zs : List Write) (w : World) (d : SystemDevice) (written : m.Config)
        → Interleaving (xs ++ (write_to lib origin_text client cr action obs entry text ∷ [])) ys zs
        → All (NotOf lib origin_text client (lib.get_gvk_name (srl_config cr))) ys
        → All
            (CanWrite lib origin_text client C)
            (xs ++ (write_to lib origin_text client cr action obs entry text ∷ []))
        → All (CanWrite lib origin_text client C) ys
        → C.device w ≡ some d
        → m.new_config_struct cr.spec.properties false ≡ ok written
        → (w' : World) × (d' : SystemDevice) × (perform_all lib origin_text client zs w
            ≡ (ok tt, w'))
          × ((edited : SrlConfig) (now : m.Config)
              → lib.get_gvk_name (srl_config edited) ≡ lib.get_gvk_name (srl_config cr)
              → cr_target lib origin_text (srl_config edited) ≡ ok target
              → m.new_config_struct edited.spec.properties false ≡ ok now
              → (get_system_config lib origin_text client (srl_config edited) w'
                  ≡ (ok (some d'), w'))
                × ((o : CrSpecDiffObservation) × (get_cr_spec_diff m lib
                        (srl_config edited)
                        (some d')
                      ≡ ok o)
                    × (IsEmpty o ↔ (written ≡ now))))
    perform_all-edited cr action obs entry text xs ys zs w d written mix others hx hy s parses =
        let (w', d', done, read, _, found, last) =
          perform_all-last_write lib origin_text client C cr action obs entry text xs ys zs w d mix
            others hx hy s in
        let (spec, marshalled, stored) = gvk_entry-spec lib cr obs action last.made in
        (
          w',
          d',
          done,
          λ edited now same_name of_target parses_now. (
            read (srl_config edited) of_target,
            get_cr_spec_diff_correct m L lib edited d' (ap (λ n. lookup n d'.gvk) same_name ∙ found)
                stored parses_now (keeps cr.spec.properties spec marshalled ∙ parses),
          ),
        )
