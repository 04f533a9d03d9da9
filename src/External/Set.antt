-- ===== src/External/Set.antt =====
-- What `create`, `update` and `delete` leave in the system cache, and how they fail.
use config_srl.Prelude.{◌≡◌, eq_refl, String, true, Option, none, some, [], ◌∷◌}
use config_srl.Prelude.Dict.{lookup, insert, lookup-insert}
use config_srl.Prelude.Outcome.{ok, err, Error, wrap}
use config_srl.Prelude.Calls.{check-none}
use config_srl.Gnmi.{json_val, SetRequest}
use config_srl.Api.{Managed}
use config_srl.System.{create_action, update_action, delete_action, Gvk, SystemCache, SystemDevice}
use config_srl.Libraries.{Codec}
use config_srl.Validator.{no_observation, get_cr_status}
use config_srl.Validator.Status.{get_cr_status_pending}
use config_srl.External.Messages.{system_replace, read_all}
use config_srl.Gvk.{ExternalObservation, gvk_path, get_spec, gvk_entry}
use config_srl.Gvk.RoundTrip.{gvk_entry-status, get_gvk_update_err, get_gvk_update_ok}
use config_srl.External.{
  GnmiClient, GetReply, Origin, system_origin, cr_target, replace_request, cannot_create, create,
  update, delete, set_or_wrap, read_reply, get_system_config,
}

module _ (lib : Codec) (origin_text : Origin → String) (client : GnmiClient) where
  open client use {World, set, get}

  -- If the spec cannot be taken from the resource, creation, update and deletion all fail with the
  -- error of a creation, and send nothing.
  pub set-get_spec_err :
      (mg : Managed) (obs : ExternalObservation) (w : World) (e : Error)
      → get_spec lib mg ≡ err e
      → (create lib origin_text client mg obs w ≡ (err (wrap e cannot_create), w))
        × (update lib origin_text client mg obs w ≡ (err (wrap e cannot_create), w))
        × (delete lib origin_text client mg obs w ≡ (err (wrap e cannot_create), w))
  unfolding create update delete
  set-get_spec_err mg obs w e h = (
    rw (get_gvk_update_err lib mg obs create_action h),
    rw (get_gvk_update_err lib mg obs update_action h),
    rw (get_gvk_update_err lib mg obs delete_action h),
  )

  -- A server that keeps the system cache of `target`, as far as the entries with a name in `Kept` go:
  -- a read gives the device as JSON, and replacing the path of such an entry by the JSON of an entry
  -- stores that entry.
  pub record IsSystemCache (target : String) (Kept : String → Type 0) : Type 0 where
    pub device : World → Option SystemDevice
    pub decode : String → Option Gvk
    pub read :
        (w : World)
        → (reply : GetReply) × (v : Option lib.Value) × (text : String) × (get
              (read_all origin_text target system_origin)
              w
            ≡ (reply, w))
          × (read_reply lib origin_text client reply ≡ ok (some v))
          × (lib.json_marshal v ≡ ok text)
          × (lib.new_system_struct text ≡ ok (device w))
    pub write :
        (w : World) (name text : String) (g : Gvk) (d : SystemDevice)
        → Kept name
        → decode text ≡ some g
        → device w ≡ some d
        → (w' : World) × (set
              (system_replace origin_text target
                (record { path = gvk_path name; val = json_val text } ∷ []))
              w
            ≡ (none, w'))
          × (device w' ≡ some (record d { gvk = insert name g d.gvk }))

module _ (lib : Codec) (origin_text : Origin → String) (client : GnmiClient) where
  open client use {World, set, get}

  set_or_wrap-none :
      (message : String) (req : SetRequest) (w : World) {w' : World}
      → set req w ≡ (none, w')
      → set_or_wrap lib origin_text client message req w ≡ (ok tt, w')
  unfolding set_or_wrap
  set_or_wrap-none message req w h = check-none message (client.set req) w h

  -- A replacement that the server takes succeeds, whatever its error would be.
  pub replaces :
      {target : String} {Kept : String → Type 0}
      (C : IsSystemCache lib origin_text client target Kept) (w : World) (name : String)
      {d : SystemDevice} {g : Gvk} {text : String}
      → Kept name
      → C.decode text ≡ some g
      → C.device w ≡ some d
      → (w' : World) × ((message : String)
          → set_or_wrap lib origin_text client message
              (replace_request lib origin_text target
                (record { path = gvk_path name; val = json_val text } ∷ []))
              w
            ≡ (ok tt, w'))
        × (C.device w' ≡ some (record d { gvk = insert name g d.gvk }))
  replaces C w name {d} {g} {text} kept k s =
      let (w', sent, stored) = C.write w name text g d kept k s in
      (w', (λ message. set_or_wrap-none message _ w sent), stored)

  pub get_system_config-device :
      (mg : Managed) {target : String} {Kept : String → Type 0}
      (C : IsSystemCache lib origin_text client target Kept) (w : World) {d : SystemDevice}
      → cr_target lib origin_text mg ≡ ok target
      → C.device w ≡ some d
      → get_system_config lib origin_text client mg w ≡ (ok (some d), w)
  unfolding get_system_config
  get_system_config-device mg C w h s =
      let (reply, v, text, got, seen, marshalled, parsed) = C.read w in
      rw (h, got, seen, marshalled, parsed, s)

  -- On a server that keeps the system cache as `IsSystemCache` says, and if the cache is not
  -- exhausted: creating a resource whose entry can be made and sent succeeds. The system
  -- configuration read after it holds the entry of the resource, and the status check made on it
  -- finds the resource there, pending, and neither failed nor exhausted.
  pub create-get_cr_status :
      (mg : Managed) (obs : ExternalObservation) {target : String} {Kept : String → Type 0}
      (C : IsSystemCache lib origin_text client target Kept) (w : World) {d : SystemDevice}
      {cache : SystemCache} {g : Gvk} {text : String}
      → Kept (lib.get_gvk_name mg)
      → cr_target lib origin_text mg ≡ ok target
      → gvk_entry lib mg obs create_action ≡ ok g
      → lib.emit_json g ≡ ok text
      → C.decode text ≡ some g
      → C.device w ≡ some d
      → d.cache ≡ some cache
      → cache.exhausted ≡ some 0
      → (w' : World) × (d' : SystemDevice) × (create lib origin_text client mg obs w ≡ (ok tt, w'))
        × (get_system_config lib origin_text client mg w' ≡ (ok (some d'), w'))
        × (lookup (lib.get_gvk_name mg) d'.gvk ≡ some g)
        × (get_cr_status lib mg (some d')
            ≡ ok (record no_observation { exists = true; pending = true }))
  unfolding create
  create-get_cr_status mg obs C w {d} {g} {text} kept t e j k s c x =
      let (w', sent, stored) = replaces C w (lib.get_gvk_name mg) kept k s in
      let d' : SystemDevice = record d { gvk = insert (lib.get_gvk_name mg) g d.gvk } in
      let found : lookup (lib.get_gvk_name mg) d'.gvk ≡ some g = rw (lookup-insert, eq_refl) in
      (
        w',
        d',
        rw (get_gvk_update_ok lib mg obs create_action e j, t) (sent cannot_create),
        get_system_config-device mg C w' t stored,
        found,
        get_cr_status_pending lib mg d' c x found (gvk_entry-status lib mg obs create_action e),
      )
