-- ===== src/Watcher/Laws.antt =====
-- What the handlers leave in a queue that drops duplicates.
use config_srl.Prelude.{◌≡◌, refl, ◌⊎◌, ◌↔◌, inl, inr, List, [], ◌∷◌, ◌++◌}
use config_srl.Api.{SrlConfig, Managed, srl_config, other_resource}
use config_srl.Watcher.{
  Request, Adder, Event, create_event, update_event, delete_event, generic_event, request_of,
  enqueue, handle,
}

-- A work queue: a request is waiting after `add` exactly if it is the added one or was waiting, and
-- adding one that waits changes nothing.
pub record IsWorkQueue (a : Adder) : Type 1 where
  pub Waiting : Request → a.Queue → Type 0
  pub waiting_add : (r s : Request) (q : a.Queue) → Waiting r (a.add s q) ↔ ((r ≡ s) ⊎ Waiting r q)
  pub add_waiting : (r : Request) (q : a.Queue) → Waiting r q → a.add r q ≡ q

-- The SrlConfig resources that an event carries, in the order of handling.
abbrev pub resource : Managed → List SrlConfig
resource (srl_config cr) = cr ∷ []
resource (other_resource _) = []

abbrev pub resources : Event → List SrlConfig
resources (create_event obj) = resource obj
resources (update_event old new) = resource old ++ resource new
resources (delete_event obj) = resource obj
resources (generic_event obj) = resource obj

-- The resources of a sequence of events.
abbrev pub all_resources : List Event → List SrlConfig
all_resources [] = []
all_resources (e ∷ es) = resources e ++ all_resources es

-- The request `r` names one of the resources.
abbrev pub Names : Request → List SrlConfig → Type 0
Names r [] = ⊥
Names r (cr ∷ crs) = (r ≡ request_of cr) ⊎ Names r crs

one_more : {X N Y E Q : Type 0} → X ↔ (N ⊎ Y) → Y ↔ (E ⊎ Q) → X ↔ ((E ⊎ N) ⊎ Q)
one_more p q = (
  λ x. elim (p.0 x) [
    | inl n ↦ inl (inr n)
    | inr y ↦ elim (q.0 y) [ inl e ↦ inl (inl e) | inr w ↦ inr w ]
  ],
  λ s. elim s [
    | inl (inl e) ↦ p.1 (inr (q.1 (inl e)))
    | inl (inr n) ↦ p.1 (inl n)
    | inr w ↦ p.1 (inr (q.1 (inr w)))
  ],
)

module _ (a : Adder) where
  pub handle_all : List Event → a.Queue → a.Queue
  handle_all [] q = q
  handle_all (e ∷ es) q = handle_all es (handle a e q)

  add_all : List SrlConfig → a.Queue → a.Queue
  add_all [] q = q
  add_all (cr ∷ crs) q = add_all crs (a.add (request_of cr) q)

  add_all-append :
      (xs ys : List SrlConfig) (q : a.Queue) → add_all (xs ++ ys) q ≡ add_all ys (add_all xs q)
  unfolding add_all
  add_all-append [] ys q = refl
  add_all-append (x ∷ xs) ys q = add_all-append xs ys (a.add (request_of x) q)

  enqueue-eq-add_all : (obj : Managed) (q : a.Queue) → enqueue a obj q ≡ add_all (resource obj) q
  unfolding enqueue add_all
  enqueue-eq-add_all (srl_config cr) q = refl
  enqueue-eq-add_all (other_resource x) q = refl

  handle-eq-add_all : (e : Event) (q : a.Queue) → handle a e q ≡ add_all (resources e) q
  unfolding handle
  handle-eq-add_all (create_event obj) q = enqueue-eq-add_all obj q
  handle-eq-add_all (update_event old new) q =
      rw (add_all-append, ← enqueue-eq-add_all old q) (enqueue-eq-add_all new (enqueue a old q))
  handle-eq-add_all (delete_event obj) q = enqueue-eq-add_all obj q
  handle-eq-add_all (generic_event obj) q = enqueue-eq-add_all obj q

  handle_all-eq-add_all :
      (es : List Event) (q : a.Queue) → handle_all es q ≡ add_all (all_resources es) q
  unfolding handle_all add_all
  handle_all-eq-add_all [] q = refl
  handle_all-eq-add_all (e ∷ es) q =
      rw (add_all-append, ← handle-eq-add_all e q) (handle_all-eq-add_all es (handle a e q))

  module _ (W : IsWorkQueue a) where
    open W use {Waiting, waiting_add, add_waiting}

    add_all-Waiting :
        (crs : List SrlConfig) (r : Request) (q : a.Queue)
        → Waiting r (add_all crs q) ↔ (Names r crs ⊎ Waiting r q)
    unfolding add_all
    add_all-Waiting [] r q = (λ h. inr h, λ h. elim h [ inl x ↦ absurd x | inr w ↦ w ])
    add_all-Waiting (cr ∷ crs) r q =
        one_more (add_all-Waiting crs r (a.add (request_of cr) q)) (waiting_add r (request_of cr) q)

    -- On a work queue as `IsWorkQueue` says: after a sequence of events a request is waiting
    -- exactly if it names an SrlConfig of one of the events, or was waiting before them. Objects
    -- of other types leave no request.
    pub handle_all-Waiting :
        (es : List Event) (r : Request) (q : a.Queue)
        → Waiting r (handle_all es q) ↔ (Names r (all_resources es) ⊎ Waiting r q)
    handle_all-Waiting es r q = rw handle_all-eq-add_all (add_all-Waiting (all_resources es) r q)

    -- On a work queue as `IsWorkQueue` says: an update that keeps the name of its resource queues
    -- it once, like a generic event for it.
    handle_update_once :
        (old new : SrlConfig) (q : a.Queue)
        → request_of old ≡ request_of new
        → handle a (update_event (srl_config old) (srl_config new)) q
          ≡ handle a (generic_event (srl_config new)) q
    unfolding handle enqueue
    handle_update_once old new q h =
        let r = request_of new in
        rw h (add_waiting r (a.add r q) ((waiting_add r r q).1 (inl refl)))
