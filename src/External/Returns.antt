-- ===== src/External/Returns.antt =====
-- What the external client computes before and after its calls never panics, if the codec does not.
use config_srl.Prelude.{
  Bool, true, false, if◌then◌else◌, refl, String, Option, none, some, List, [], ◌∷◌,
}
use config_srl.Prelude.Dict.{Dict, insert}
use config_srl.Prelude.Outcome.{Outcome, ok, err, panic, wrap_err, ◌>>=◌}
use config_srl.Prelude.Returns.{Returns, ok-Returns, err-Returns, wrap_err-Returns, >>=-Returns}
use config_srl.Gnmi.{TypedValue, Update, Notification}
use config_srl.Api.{Managed, srl_config, other_resource}
use config_srl.System.{ResourceAction, Gvk, GvkUpdate}
use config_srl.Libraries.{Codec}
use config_srl.Gvk.{
  ExternalObservation, get_spec, get_updates, get_updates_from, observed_updates, gvk_entry,
  get_gvk_update, cannot_marshal,
}
use config_srl.External.{
  Origin, GnmiClient, GetReply, first_value, notifications, is_unavailable, read_reply,
}

-- No call of the codec panics.
pub record CodecReturns (lib : Codec) : Type 0 where
  pub get_value : (v : TypedValue) → Returns (lib.get_value v)
  pub json_marshal : (v : Option lib.Value) → Returns (lib.json_marshal v)
  pub marshal_properties : (text : String) → Returns (lib.marshal_properties text)
  pub emit_json : (g : Gvk) → Returns (lib.emit_json g)
  pub new_system_struct : (text : String) → Returns (lib.new_system_struct text)

module _ (lib : Codec) (R : CodecReturns lib) where
  pub get_spec-Returns : (mg : Managed) → Returns (get_spec lib mg)
  unfolding get_spec
  get_spec-Returns (srl_config cr) =
      wrap_err-Returns cannot_marshal (lib.marshal_properties cr.spec.properties)
        (R.marshal_properties cr.spec.properties)
  get_spec-Returns (other_resource x) = err-Returns _

  get_updates_from-Returns :
      (d : Dict GvkUpdate) (us : List Update) → Returns (get_updates_from lib d us)
  unfolding get_updates_from
  get_updates_from-Returns d [] = ok-Returns d
  get_updates_from-Returns d (u ∷ us) =
      >>=-Returns (lib.get_value u.val >>= λ v. lib.json_marshal v) _
        (>>=-Returns (lib.get_value u.val) _ (R.get_value u.val) (λ v e. R.json_marshal v))
        (λ val e.
          get_updates_from-Returns
            (insert (lib.to_xpath u.path)
              (record { path = some (lib.to_xpath u.path); value = some val }) d)
            us)

  gvk_entry-Returns :
      (mg : Managed) (obs : ExternalObservation) (action : ResourceAction)
      → Returns (gvk_entry lib mg obs action)
  unfolding gvk_entry get_updates
  gvk_entry-Returns mg obs action = >>=-Returns (get_spec lib mg) _ (get_spec-Returns mg) (λ spec e.
      >>=-Returns (observed_updates lib obs.updates) _ (observed-Returns obs.updates)
        (λ updates j. ok-Returns _))
    where
      observed-Returns : (us : Option (List Update)) → Returns (observed_updates lib us)
      observed-Returns none = ok-Returns []
      observed-Returns (some us) = get_updates_from-Returns [] us

  pub get_gvk_update-Returns :
      (mg : Managed) (obs : ExternalObservation) (action : ResourceAction)
      → Returns (get_gvk_update lib mg obs action)
  unfolding get_gvk_update
  get_gvk_update-Returns mg obs action =
      >>=-Returns (gvk_entry lib mg obs action) _ (gvk_entry-Returns mg obs action)
        (λ g e. >>=-Returns (lib.emit_json g) _ (R.emit_json g) (λ text j. ok-Returns _))

  module _ (origin_text : Origin → String) (client : GnmiClient) where
    first_value-Returns : (ns : List Notification) → Returns (first_value lib origin_text client ns)
    unfolding first_value
    first_value-Returns [] = ok-Returns none
    first_value-Returns (n ∷ ns) = by_update n.update
      where
        by_value :
            (r : Outcome (Option lib.Value))
            → Returns r
            → Returns (elim (wrap_err cannot_marshal r) [
              | ok none ↦ ok none
              | ok (some v) ↦ ok (some (some v))
              | err e ↦ err e
              | panic ↦ panic
            ])
        by_value (ok none) h = ok-Returns _
        by_value (ok (some v)) h = ok-Returns _
        by_value (err e) h = err-Returns _
        by_value panic h = absurd (h refl)

        by_update :
            (us : List Update)
            → Returns (elim us [
              | [] ↦ ok (some none)
              | u ∷ _ ↦ elim (wrap_err cannot_marshal (lib.get_value u.val)) [
                | ok none ↦ ok none
                | ok (some v) ↦ ok (some (some v))
                | err e ↦ err e
                | panic ↦ panic
              ]
            ])
        by_update [] = ok-Returns _
        by_update (u ∷ us) = by_value (lib.get_value u.val) (R.get_value u.val)

    pub read_reply-Returns : (reply : GetReply) → Returns (read_reply lib origin_text client reply)
    unfolding read_reply
    read_reply-Returns reply = by_error (is_unavailable reply.error)
      where
        by_error :
            (b : Bool)
            → Returns (
                if b
                then ok none
                else first_value lib origin_text client (notifications reply.response))
        by_error true = ok-Returns _
        by_error false = first_value-Returns (notifications reply.response)
