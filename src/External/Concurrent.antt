-- ===== src/External/Concurrent.antt =====
-- Reconciles of different resources of one target that run at the same time: their writes reach the
-- system cache in any order.
use config_srl.Prelude.{
  ◌≡◌, ◌≢◌, refl, sym, ◌∙◌, String, ◌==◌, Option, some, List, [], ◌∷◌, eq_iff, if◌then◌else◌, arith,
}
use config_srl.Prelude.Lists.{All}
use config_srl.Prelude.Dict.{lookup}
use config_srl.Prelude.Interleaving.{
  Interleaving, ended, first_steps, second_steps, Interleaving-All, Interleaving-swap,
}
use config_srl.Prelude.Outcome.{ok}
use config_srl.Api.{Managed}
use config_srl.System.{Gvk, SystemDevice}
use config_srl.Libraries.{Codec}
use config_srl.External.{GnmiClient, Origin, cr_target, get_system_config}
use config_srl.External.Set.{IsSystemCache}
use config_srl.External.History.{
  Write, CanWrite, last_written, perform_all, perform_all-get_system_config,
}

module _ (lib : Codec) (origin_text : Origin → String) (client : GnmiClient) where
  open client use {World}

  -- The write is of a resource with this name, or of another.
  abbrev pub Of : String → Write → Type 0
  Of name x = lib.get_gvk_name x.resource ≡ name

  abbrev pub NotOf : String → Write → Type 0
  NotOf name x = lib.get_gvk_name x.resource ≢ name

  last_written-NotOf :
      (name : String) (old : Option Gvk) (y : Write)
      → NotOf name y
      → (if lib.get_gvk_name y.resource == name then some y.entry else old) ≡ old
  last_written-NotOf name old y d = ground (arith, d, eq_iff (lib.get_gvk_name y.resource) name)

  pub last_written-Interleaving :
      (name : String) (old : Option Gvk) {xs ys zs : List Write}
      → Interleaving xs ys zs
      → All (NotOf name) ys
      → last_written lib origin_text client name old zs
        ≡ last_written lib origin_text client name old xs
  last_written-Interleaving name old ended d = refl
  last_written-Interleaving name old (first_steps x m) d =
      last_written-Interleaving name
        (if lib.get_gvk_name x.resource == name then some x.entry else old) m d
  last_written-Interleaving name old (second_steps y m) (d, ds) =
      rw (last_written-NotOf name old y d) (last_written-Interleaving name old m ds)

  NotOf-other :
      (name other : String) (xs : List Write)
      → other ≢ name
      → All (Of name) xs
      → All (NotOf other) xs
  NotOf-other name other [] d h = tt
  NotOf-other name other (x ∷ xs) d (h, hs) = ((λ e. d (sym e ∙ h)), NotOf-other name other xs d hs)

  module _ {target : String} {Kept : String → Type 0}
      (C : IsSystemCache lib origin_text client target Kept) where
    -- On a server that keeps the system cache as `IsSystemCache` says: when writes to a resource and
    -- writes to other resources of its target, all of which can be made and sent, reach it in any
    -- interleaving, they all succeed. The system configuration read after them for any resource of
    -- the target holds, for the resource, what its own writes alone would have left, and under any
    -- other name what the other writes alone would have left; the counters are as before.
    pub perform_all-Interleaving :
        (name other : String) (xs ys zs : List Write) (mg : Managed) (w : World) (d : SystemDevice)
        → Interleaving xs ys zs
        → All (Of name) xs
        → All (NotOf name) ys
        → All (CanWrite lib origin_text client C) xs
        → All (CanWrite lib origin_text client C) ys
        → other ≢ name
        → cr_target lib origin_text mg ≡ ok target
        → C.device w ≡ some d
        → (w' : World) × (d' : SystemDevice) × (perform_all lib origin_text client zs w
            ≡ (ok tt, w'))
          × (get_system_config lib origin_text client mg w' ≡ (ok (some d'), w'))
          × (d'.cache ≡ d.cache)
          × (lookup name d'.gvk ≡ last_written lib origin_text client name (lookup name d.gvk) xs)
          × (lookup other d'.gvk
              ≡ last_written lib origin_text client other (lookup other d.gvk) ys)
    perform_all-Interleaving name other xs ys zs mg w d m own others hx hy differs t s =
        let (w', d', done, read, cache, held) =
          perform_all-get_system_config lib origin_text client C zs w d (Interleaving-All _ m hx hy)
            s in
        (
          w',
          d',
          done,
          read mg t,
          cache,
          held name ∙ last_written-Interleaving name (lookup name d.gvk) m others,
          held other
              ∙ last_written-Interleaving other (lookup other d.gvk) (Interleaving-swap m)
                  (NotOf-other name other xs differs own),
        )
