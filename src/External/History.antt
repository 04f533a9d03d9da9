-- ===== src/External/History.antt =====
-- Sequences of writes to the system cache of one target, of any resources in any order.
use config_srl.Prelude.{◌≡◌, refl, ◌∙◌, String, ◌==◌, Option, some, List, [], ◌∷◌, if◌then◌else◌}
use config_srl.Prelude.Lists.{All}
use config_srl.Prelude.Dict.{lookup, insert, lookup-insert}
use config_srl.Prelude.Outcome.{ok}
use config_srl.Prelude.Effect.{Eff, lift, ◌>>◌, >>=-ok_at}
use config_srl.Api.{Managed}
use config_srl.System.{
  ResourceAction, create_action, update_action, delete_action, Gvk, SystemDevice,
}
use config_srl.Libraries.{Codec}
use config_srl.Gvk.{ExternalObservation, gvk_entry}
use config_srl.Gvk.RoundTrip.{get_gvk_update_ok}
use config_srl.External.{
  GnmiClient, Origin, cr_target, cannot_create, cannot_update, cannot_delete, create, update,
  delete, get_system_config,
}
use config_srl.External.Set.{IsSystemCache, replaces, get_system_config-device}

-- A write: its action on a resource, with the entry and the JSON that come of it.
pub record Write : Type 0 where
  pub action : ResourceAction
  pub resource : Managed
  pub observed : ExternalObservation
  pub entry : Gvk
  pub text : String

module _ (lib : Codec) (origin_text : Origin → String) (client : GnmiClient) where
  open client use {World}

  -- The call that the reconciler makes for an action.
  unfoldable pub perform : ResourceAction → Managed → ExternalObservation → Eff World (Unit {0})
  perform create_action = create lib origin_text client
  perform update_action = update lib origin_text client
  perform delete_action = delete lib origin_text client

  -- The writes one after the other, for the theorems: the source makes each in a reconcile of its own.
  -- A failure ends the sequence.
  unfoldable pub perform_all : List Write → Eff World (Unit {0})
  unfolding perform
  perform_all [] = lift (ok tt)
  perform_all (x ∷ xs) = perform x.action x.resource x.observed >> perform_all xs

  -- The entry of the last write under the name, or `old` if there is none.
  abbrev pub last_written : String → Option Gvk → List Write → Option Gvk
  last_written name old [] = old
  last_written name old (x ∷ xs) =
      last_written name (if lib.get_gvk_name x.resource == name then some x.entry else old) xs

  module _ {target : String} {Kept : String → Type 0}
      (C : IsSystemCache lib origin_text client target Kept) where
    -- The write is of a resource of the target, its entry can be made and sent, and the server reads
    -- the entry back from what is sent.
    pub record CanWrite (x : Write) : Type 0 where
      pub kept : Kept (lib.get_gvk_name x.resource)
      pub of_target : cr_target lib origin_text x.resource ≡ ok target
      pub made : gvk_entry lib x.resource x.observed x.action ≡ ok x.entry
      pub sent : lib.emit_json x.entry ≡ ok x.text
      pub decoded : C.decode x.text ≡ some x.entry

    abbrev stored : Write → SystemDevice → SystemDevice
    stored x d = record d { gvk = insert (lib.get_gvk_name x.resource) x.entry d.gvk }

    perform-stored :
        (action : ResourceAction) (mg : Managed) (obs : ExternalObservation) (w : World)
        {d : SystemDevice} {g : Gvk} {text : String}
        → Kept (lib.get_gvk_name mg)
        → cr_target lib origin_text mg ≡ ok target
        → gvk_entry lib mg obs action ≡ ok g
        → lib.emit_json g ≡ ok text
        → C.decode text ≡ some g
        → C.device w ≡ some d
        → (w' : World) × (perform action mg obs w ≡ (ok tt, w'))
          × (C.device w' ≡ some (record d { gvk = insert (lib.get_gvk_name mg) g d.gvk }))
    unfolding perform create update delete
    perform-stored create_action mg obs w {d} {g} {text} kept t e j k s =
        let (w', sent, after) =
          replaces lib origin_text client C w (lib.get_gvk_name mg) kept k s in
        (w', rw (get_gvk_update_ok lib mg obs create_action e j, t) (sent cannot_create), after)
    perform-stored update_action mg obs w {d} {g} {text} kept t e j k s =
        let (w', sent, after) =
          replaces lib origin_text client C w (lib.get_gvk_name mg) kept k s in
        (w', rw (get_gvk_update_ok lib mg obs update_action e j, t) (sent cannot_update), after)
    perform-stored delete_action mg obs w {d} {g} {text} kept t e j k s =
        let (w', sent, after) =
          replaces lib origin_text client C w (lib.get_gvk_name mg) kept k s in
        (w', rw (get_gvk_update_ok lib mg obs delete_action e j, t) (sent cannot_delete), after)

    pub perform_all-device :
        (xs : List Write) (w : World) (d : SystemDevice)
        → All CanWrite xs
        → C.device w ≡ some d
        → (w' : World) × (d' : SystemDevice) × (perform_all xs w ≡ (ok tt, w'))
          × (C.device w' ≡ some d')
          × (d'.cache ≡ d.cache)
          × ((name : String) → lookup name d'.gvk ≡ last_written name (lookup name d.gvk) xs)
    unfolding perform_all
    perform_all-device [] w d h s = (w, d, refl, s, refl, λ name. refl)
    perform_all-device (x ∷ xs) w d h s =
        let c : CanWrite x = h.0 in
        let (w1, first, after) =
          perform-stored x.action x.resource x.observed w c.kept c.of_target c.made c.sent c.decoded
            s in
        let (w2, d2, rest, read, cache, held) = perform_all-device xs w1 (stored x d) h.1 after in
        (
          w2,
          d2,
          >>=-ok_at (perform x.action x.resource x.observed) (λ _. perform_all xs) w first ∙ rest,
          read,
          cache,
          λ name. held name ∙ rw (lookup-insert (lib.get_gvk_name x.resource) name x.entry d.gvk),
        )

    -- On a server that keeps the system cache as `IsSystemCache` says, any sequence of creations,
    -- updates and deletions that can be made and sent succeeds. The system configuration that any
    -- resource of the target reads after it holds under each name the entry of the last write
    -- under that name, or what it held before if there is none, and the counters are as before.
    pub perform_all-get_system_config :
        (xs : List Write) (w : World) (d : SystemDevice)
        → All CanWrite xs
        → C.device w ≡ some d
        → (w' : World) × (d' : SystemDevice) × (perform_all xs w ≡ (ok tt, w'))
          × ((mg : Managed)
              → cr_target lib origin_text mg ≡ ok target
              → get_system_config lib origin_text client mg w' ≡ (ok (some d'), w'))
          × (d'.cache ≡ d.cache)
          × ((name : String) → lookup name d'.gvk ≡ last_written name (lookup name d.gvk) xs)
    perform_all-get_system_config xs w d h s =
        let (w', d', done, read, cache, held) = perform_all-device xs w d h s in
        (
          w',
          d',
          done,
          (λ mg t. get_system_config-device lib origin_text client mg C w' t read),
          cache,
          held,
        )
