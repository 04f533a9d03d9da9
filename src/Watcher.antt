-- ===== src/Watcher.antt =====
-- internal/controllers/srl/srlconfig_watcher.go: the event handler that queues reconcile requests.
-- Loggers and contexts are left out, and so is the client, which no handler uses.
pub mod Laws
use config_srl.Prelude.{String, Option, none, some}
use config_srl.Api.{SrlConfig, Managed, as_srl_config}

-- reconcile.Request, a types.NamespacedName.
pub record Request : Type 0 where
  pub namespace : String
  pub name : String

-- The interface `adder`, over the state of the queue; `Add` of the work queue.
pub record Adder : Type 1 where
  pub Queue : Type 0
  pub add : Request → Queue → Queue

-- The events of controller-runtime, with their objects.
pub data Event : Type 0 where
  create_event : Managed → Event
  update_event : Managed → Managed → Event
  delete_event : Managed → Event
  generic_event : Managed → Event

abbrev pub request_of : SrlConfig → Request
request_of cr = record { namespace = cr.metadata.namespace; name = cr.metadata.name }

module _ (a : Adder) where
  open a use {Queue}

  -- The method `add`; an object of another type is passed over.
  unfoldable pub enqueue : Managed → Queue → Queue
  enqueue obj q = elim (as_srl_config obj) [ none ↦ q | some cr ↦ a.add (request_of cr) q ]

  -- The four handlers.
  unfoldable pub handle : Event → Queue → Queue
  unfolding enqueue
  handle (create_event obj) q = enqueue obj q
  handle (update_event old new) q = enqueue new (enqueue old q)
  handle (delete_event obj) q = enqueue obj q
  handle (generic_event obj) q = enqueue obj q
