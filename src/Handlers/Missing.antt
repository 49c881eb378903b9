-- ===== src/Handlers/Missing.antt =====
-- What deleting a load balancer queues.
use octavia_f5_provider_driv.Base.{String, ◌≡◌, refl, Option, none, some, List, [], ◌∷◌}
use octavia_f5_provider_driv.Octavia.{LoadBalancer}
use octavia_f5_provider_driv.Handlers.Retries.{Queues, call-Queues}
use octavia_f5_provider_driv.Handlers.{
  load_balancer, Call, put, World, queue_network, delete_load_balancer, delete_entity,
  found_or_skip,
}

-- What a deletion queues.
abbrev pub found_network : Option LoadBalancer → List (String × Option String)
found_network none = []
found_network (some lb) = (lb.vip.network_id, none) ∷ []

found_or_skip-Queues :
    (w : World) (o : Option LoadBalancer)
    → ((c : Call) → w.raises c ≡ none)
    → Queues (found_network o) (found_or_skip (queue_network w) o)
unfolding found_or_skip
found_or_skip-Queues w none h = record { returns = refl; queues = refl }
found_or_skip-Queues w (some lb) h = call-Queues w h (put lb.vip.network_id none)

pub delete_load_balancer-Queues :
    (w : World) (id : String)
    → ((c : Call) → w.raises c ≡ none)
    → Queues (found_network (w.find load_balancer 0 id)) (delete_load_balancer w id)
unfolding delete_load_balancer delete_entity
delete_load_balancer-Queues w id h = found_or_skip-Queues w (w.find load_balancer 0 id) h
