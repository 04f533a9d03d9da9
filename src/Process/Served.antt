-- ===== src/Process/Served.antt =====
-- The requests of the reconciler's gNMI client, against the handlers that the worker's server has.
use config_srl.Prelude.{ℕ, String, ◌≡◌, refl, some, [], ◌⊎◌, inl, inr}
use config_srl.Prelude.Lists.{get_elem?}
use config_srl.Gnmi.{SetRequest, GetRequest}
use config_srl.Libraries.{Codec}
use config_srl.Api.{Managed}
use config_srl.System.{ResourceAction}
use config_srl.Gvk.{ExternalObservation}
use config_srl.External.{
  Origin, system_origin, config_origin, GnmiClient, get_running_config, get_system_config,
  get_request,
}
use config_srl.External.History.{perform}
use config_srl.External.Requests.{perform-Keeps, get_running_config-Keeps, get_system_config-Keeps}
use config_srl.Process.{Operation, get, set_update, set_replace, set_delete, Route}
use config_srl.Process.Worker.{worker_routes}

module _ (origin_text : Origin → String) where
  -- One of the worker's handlers is for this operation and origin.
  abbrev pub HasRoute : Operation → String → Type 0
  HasRoute operation origin =
      (i : ℕ) × (r : Route) × (get_elem? worker_routes i ≡ some r)
      × (r.operation ≡ operation)
      × (origin_text r.origin ≡ origin)

  -- Every part of the request that is not empty has a handler.
  abbrev pub SetServed : SetRequest → Type 0
  SetServed req =
      (req.update ≡ [] ⊎ HasRoute set_update req.prefix.origin)
      × (req.replace ≡ [] ⊎ HasRoute set_replace req.prefix.origin)
      × (req.delete ≡ [] ⊎ HasRoute set_delete req.prefix.origin)

  abbrev pub GetServed : GetRequest → Type 0
  GetServed req = HasRoute get req.prefix.origin

module _ (lib : Codec) (origin_text : Origin → String) (client : GnmiClient)
    (P : client.World → Type 0)
    (served_set : (req : SetRequest) (w : client.World)
      → SetServed origin_text req
      → P w
      → P (client.set req w).1)
    (served_get : (req : GetRequest) (w : client.World)
      → GetServed origin_text req
      → P w
      → P (client.get req w).1) where
  -- Whatever every request keeps that the worker's server has handlers for, all reads and writes of the
  -- reconciler's client keep, those that fail included: they send no other request. A write request
  -- has handlers if each of its parts that is not empty has one for the origin of its prefix.
  pub requests-served :
      (action : ResourceAction) (mg : Managed) (obs : ExternalObservation) (w : client.World)
      → P w
      → P (perform lib origin_text client action mg obs w).1
        × P (get_running_config lib origin_text client mg w).1
        × P (get_system_config lib origin_text client mg w).1
  requests-served action mg obs w h = (
    (perform-Keeps lib origin_text client
          (λ target updates w'. served_set _ w' (inl refl, inr (6, _, refl, refl, refl), inl refl))
          action mg obs).at
        w h,
    (get_running_config-Keeps lib origin_text client reads mg).at w h,
    (get_system_config-Keeps lib origin_text client reads mg).at w h,
  )
    where
      reads :
          (target : String) (o : Origin) (w' : client.World)
          → P w'
          → P (client.get (get_request lib origin_text target o) w').1
      reads target config_origin w' = served_get _ w' (0, _, refl, refl, refl)
      reads target system_origin w' = served_get _ w' (4, _, refl, refl, refl)
