-- ===== src/Handlers.antt =====
-- The message handlers of octavia_f5/controller/worker/controller_worker.py, which queue the network
-- of an entity, and the database entries that they ensure.
pub mod Missing
pub mod Retries
mod Examples
use octavia_f5_provider_driv.Base.{
  ℕ, zero, suc, String, Bool, true, false, not, Option, none, some, List, [], ◌∷◌, ◌++◌, ◌==◌,
  Exception, no_result_found, retry_error, attribute_error, if◌then◌else◌,
}
use octavia_f5_provider_driv.Octavia.{LoadBalancer}
use octavia_f5_provider_driv.Runs.{Run, pure, raise, call, ◌>>=◌, ◌>>◌}
use octavia_f5_provider_driv.Text.{take_chars}

pub data Entity : Type 0 where
  load_balancer listener pool member health_monitor l7policy l7rule : Entity

pub record Amphora : Type 0 where
  pub id : String
  pub compute_flavor : String

pub data Call : Type 0 where
  put : (network_id : String) (device : Option String) → Call
  create_amphora : (id compute_flavor : String) → Call
  update_amphora : (id compute_flavor : String) → Call
  set_server_group_id : (load_balancer_id server_group_id : String) → Call
  set_amphora_ready : (id : String) → Call

-- `find e n id` is what the n-th read of the database finds for an entity's id: the load balancer
-- that the entity belongs to.
pub record World : Type 0 where
  pub host : String
  pub find : Entity → ℕ → String → Option LoadBalancer
  pub amphora : String → Option Amphora
  pub raises : Call → Option Exception

-- `self.queue.put((..vip.network_id, None))`
abbrev pub queue_network : World → LoadBalancer → Run Call (Unit {0})
queue_network w lb = call w.raises (put lb.vip.network_id none)

-- ensure_amphora_exists
ensure_entry : World → String → Option Amphora → Run Call (Unit {0})
ensure_entry w load_balancer_id none = call w.raises (create_amphora load_balancer_id w.host)
ensure_entry w load_balancer_id (some a) =
    if a.compute_flavor == w.host then pure tt else call w.raises (update_amphora a.id w.host)

pub ensure_amphora_exists : World → String → Run Call (Unit {0})
unfolding ensure_entry
ensure_amphora_exists w load_balancer_id =
    ensure_entry w load_balancer_id (w.amphora load_balancer_id)

-- ensure_host_set; the column holds 36 characters.
pub ensure_host_set : World → LoadBalancer → Run Call (Unit {0})
ensure_host_set w lb =
    if take_chars 36 w.host == lb.server_group_id
    then pure tt
    else call w.raises (set_server_group_id lb.id (take_chars 36 w.host))

-- `tenacity.retry` on NoResultFound around a handler that raises it if the entity is missing.
read :
    (Option LoadBalancer → Run Call (Unit {0}))
    → Run Call (Unit {0})
    → Option LoadBalancer
    → Run Call (Unit {0})
read body rest none = rest
read body rest (some lb) = body (some lb)

pub retry :
    (Option LoadBalancer → Run Call (Unit {0}))
    → ℕ
    → (ℕ → Option LoadBalancer)
    → ℕ
    → Run Call (Unit {0})
unfolding read
retry body zero find n = raise retry_error
retry body (suc left) find n = let rest = retry body left find (suc n) in read body rest (find n)

-- The handlers' answers to a missing entity.
found_or_raise :
    Exception → (LoadBalancer → Run Call (Unit {0})) → Option LoadBalancer → Run Call (Unit {0})
found_or_raise e f none = raise e
found_or_raise e f (some lb) = f lb

found_or_skip : (LoadBalancer → Run Call (Unit {0})) → Option LoadBalancer → Run Call (Unit {0})
found_or_skip f none = pure tt
found_or_skip f (some lb) = f lb

-- The body of a `create` handler of an entity that has nothing to ensure.
pub plain_body : World → Option LoadBalancer → Run Call (Unit {0})
unfolding found_or_raise
plain_body w = found_or_raise no_result_found (queue_network w)

pub load_balancer_body : World → Option LoadBalancer → Run Call (Unit {0})
unfolding found_or_raise ensure_amphora_exists ensure_host_set
load_balancer_body w =
    found_or_raise no_result_found
      (λ lb. ensure_amphora_exists w lb.id >> ensure_host_set w lb >> queue_network w lb)

pub member_body : World → Option LoadBalancer → Run Call (Unit {0})
unfolding found_or_raise ensure_amphora_exists
member_body w =
    found_or_raise no_result_found (λ lb. ensure_amphora_exists w lb.id >> queue_network w lb)

pub create_load_balancer : World → String → Run Call (Unit {0})
unfolding retry load_balancer_body
create_load_balancer w id = retry (load_balancer_body w) 15 (λ n. w.find load_balancer n id) 0

pub create_listener : World → String → Run Call (Unit {0})
unfolding retry plain_body
create_listener w id = retry (plain_body w) 15 (λ n. w.find listener n id) 0

pub create_pool : World → String → Run Call (Unit {0})
unfolding retry plain_body
create_pool w id = retry (plain_body w) 15 (λ n. w.find pool n id) 0

pub create_member : World → String → Run Call (Unit {0})
unfolding retry member_body
create_member w id = retry (member_body w) 15 (λ n. w.find member n id) 0

-- The one `create` handler that is not retried.
pub create_health_monitor : World → String → Run Call (Unit {0})
unfolding plain_body
create_health_monitor w id = plain_body w (w.find health_monitor 0 id)

pub create_l7policy : World → String → Run Call (Unit {0})
unfolding retry plain_body
create_l7policy w id = retry (plain_body w) 15 (λ n. w.find l7policy n id) 0

pub create_l7rule : World → String → Run Call (Unit {0})
unfolding retry plain_body
create_l7rule w id = retry (plain_body w) 15 (λ n. w.find l7rule n id) 0

-- An attribute of None raises AttributeError.
update_entity : World → Entity → String → Run Call (Unit {0})
unfolding found_or_raise
update_entity w e id = found_or_raise attribute_error (queue_network w) (w.find e 0 id)

pub update_load_balancer : World → String → Run Call (Unit {0})
unfolding update_entity
update_load_balancer w id = update_entity w load_balancer id

pub update_listener : World → String → Run Call (Unit {0})
unfolding update_entity
update_listener w id = update_entity w listener id

pub update_pool : World → String → Run Call (Unit {0})
unfolding update_entity
update_pool w id = update_entity w pool id

pub update_member : World → String → Run Call (Unit {0})
unfolding update_entity
update_member w id = update_entity w member id

pub update_health_monitor : World → String → Run Call (Unit {0})
unfolding update_entity
update_health_monitor w id = update_entity w health_monitor id

pub update_l7policy : World → String → Run Call (Unit {0})
unfolding update_entity
update_l7policy w id = update_entity w l7policy id

pub update_l7rule : World → String → Run Call (Unit {0})
unfolding update_entity
update_l7rule w id = update_entity w l7rule id

delete_entity : World → Entity → String → Run Call (Unit {0})
unfolding found_or_skip
delete_entity w e id = found_or_skip (queue_network w) (w.find e 0 id)

pub delete_load_balancer : World → String → Run Call (Unit {0})
unfolding delete_entity
delete_load_balancer w id = delete_entity w load_balancer id

pub delete_listener : World → String → Run Call (Unit {0})
unfolding delete_entity
delete_listener w id = delete_entity w listener id

pub delete_pool : World → String → Run Call (Unit {0})
unfolding delete_entity
delete_pool w id = delete_entity w pool id

-- The handler has no test for a member that is gone.
pub delete_member : World → String → Run Call (Unit {0})
unfolding found_or_raise
delete_member w id = found_or_raise attribute_error (queue_network w) (w.find member 0 id)

pub delete_health_monitor : World → String → Run Call (Unit {0})
unfolding delete_entity
delete_health_monitor w id = delete_entity w health_monitor id

pub delete_l7policy : World → String → Run Call (Unit {0})
unfolding delete_entity
delete_l7policy w id = delete_entity w l7policy id

pub delete_l7rule : World → String → Run Call (Unit {0})
unfolding delete_entity
delete_l7rule w id = delete_entity w l7rule id

-- The network of the first member of the first list that is not empty.
pub batch_update_members : World → List String → List String → List String → Run Call (Unit {0})
unfolding update_entity
batch_update_members w (id ∷ _) new updated = update_entity w member id
batch_update_members w [] (id ∷ _) updated = update_entity w member id
batch_update_members w [] [] (id ∷ _) = update_entity w member id
batch_update_members w [] [] [] = pure tt
