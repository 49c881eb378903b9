-- ===== src/Worker.antt =====
-- `f5sync`, `add_loadbalancer` and `remove_loadbalancer` of
-- octavia_f5/controller/worker/controller_worker.py: the calls that synchronise a network.
pub mod Plans
pub mod Reports
pub mod Removal
pub mod Spared
mod Examples
use octavia_f5_provider_driv.Base.{
  ℕ, zero, suc, String, Bool, true, false, not, ◌||◌, Option, none, some, List, [], ◌∷◌, ◌++◌, map,
  ◌==◌, keep, mem, any, all, Exception, no_result_found, retry_error, if◌then◌else◌,
}
use octavia_f5_provider_driv.Octavia.{
  ProvisioningStatus, LoadBalancer, is_pending_create, is_pending_delete,
}
use octavia_f5_provider_driv.Runs.{Run, pure, raise, retry_on, call, ◌>>=◌, ◌>>◌}

-- A SelfIP port, as a text that stands for all its fields.
abbrev pub Port : Type 0
Port = String

-- `tenant_update` includes the ERROR statuses that it reports for what it cannot declare (Tenant).
-- `device` is none for the active device and the whole group; the calls of `sync` include
-- `raise_for_status`.
pub data Call : Type 0 where
  ensure_selfips : (lbs : List LoadBalancer) (cleanup_orphans : Bool) → Call
  tenant_delete : (network_id : String) (device : Option String) → Call
  tenant_update :
      (network_id : String) (device : Option String) (selfips : List Port) (lbs : List LoadBalancer)
      → Call
  ensure_l2_flow : (selfips : List Port) (network_id : String) (device : Option String) → Call
  sync_l2_selfips_and_subnet_routes_flow :
      (selfips : List Port) (network_id : String) (device : Option String) → Call
  remove_l2_flow : (network_id : String) (device : Option String) → Call
  cleanup_selfips : (selfips : List Port) → Call
  update_status : (lbs : List LoadBalancer) → Call
  reset_in_use_quota : (project_id : String) → Call
  invalidate_cache : Call

-- What the database and the network driver answer, and which calls raise. `loadbalancers` are those
-- of a network on this host that are not deleted; `selfips` are the ports that `ensure_selfips`
-- returns, the existing and the new ones.
pub record World : Type 0 where
  pub loadbalancers : String → List LoadBalancer
  pub selfips : List LoadBalancer → List Port
  pub raises : Call → Option Exception

-- `ensure_selfips`, with its tuple of lists chained
abbrev pub ask_selfips : World → List LoadBalancer → Bool → Run Call (List Port)
ask_selfips w lbs cleanup = call w.raises (ensure_selfips lbs cleanup) >> pure (w.selfips lbs)

abbrev pub is_new_or_gone : ProvisioningStatus → Bool
is_new_or_gone s = is_pending_create s || is_pending_delete s

abbrev pub all_deleted : List LoadBalancer → Bool
all_deleted lbs = all lbs (λ (lb : LoadBalancer). is_pending_delete lb.provisioning_status)

abbrev pub all_new_or_gone : List LoadBalancer → Bool
all_new_or_gone lbs = all lbs (λ (lb : LoadBalancer). is_new_or_gone lb.provisioning_status)

abbrev pub any_new_or_gone : List LoadBalancer → Bool
any_new_or_gone lbs = any lbs (λ (lb : LoadBalancer). is_new_or_gone lb.provisioning_status)

-- `set(lb.project_id for lb in loadbalancers)`; a set has no order, and this keeps the last places.
abbrev pub projects : List LoadBalancer → List String
projects [] = []
projects (lb ∷ lbs) =
    let rest = projects lbs in if mem lb.project_id rest then rest else lb.project_id ∷ rest

reset_quotas : World → List String → Run Call (Unit {0})
reset_quotas w [] = pure tt
reset_quotas w (p ∷ ps) = call w.raises (reset_in_use_quota p) >> reset_quotas w ps

-- The branch of `f5sync` for a network that goes.
delete_network : World → String → Option String → List Port → Run Call (Unit {0})
delete_network w network_id device selfips =
    call w.raises (tenant_delete network_id device)
    >> call w.raises (remove_l2_flow network_id device)
    >> call w.raises (cleanup_selfips selfips)

-- The branch of `f5sync` for a network that stays.
sync_l2 : World → String → Option String → List Port → List LoadBalancer → Run Call (Unit {0})
sync_l2 w network_id device selfips lbs =
    if all_new_or_gone lbs
    then call w.raises (ensure_l2_flow selfips network_id device)
    else if any_new_or_gone lbs
    then call w.raises (sync_l2_selfips_and_subnet_routes_flow selfips network_id device)
    else pure tt

update_network :
    World → String → Option String → List Port → List LoadBalancer → Run Call (Unit {0})
unfolding sync_l2
update_network w network_id device selfips lbs =
    sync_l2 w network_id device selfips lbs
    >> call w.raises (tenant_update network_id device selfips [])

pub f5sync : World → String → Option String → Run Call (Unit {0})
unfolding delete_network update_network reset_quotas
f5sync w network_id device =
    let lbs = w.loadbalancers network_id in
    ask_selfips w lbs true >>= λ selfips.
    (if all_deleted lbs
      then delete_network w network_id device selfips
      else update_network w network_id device selfips lbs)
    >> call w.raises (update_status lbs)
    >> reset_quotas w (projects lbs)

abbrev pub has_id : String → LoadBalancer → Bool
has_id id lb = lb.id == id

abbrev is_no_result : Exception → Bool
is_no_result no_result_found = true
is_no_result _ = false

-- One attempt of `add_loadbalancer`, for the load balancer that the database has or has not.
pub add_found : World → LoadBalancer → Run Call Bool
add_found w lb =
    let network_id = lb.vip.network_id in
    let present = w.loadbalancers network_id in
    let lbs = if any present (has_id lb.id) then present else present ++ lb ∷ [] in
    ask_selfips w lbs false >>= λ selfips.
    (if any lbs (λ (o : LoadBalancer). not (has_id lb.id o))
      then call w.raises (sync_l2_selfips_and_subnet_routes_flow selfips network_id none)
      else call w.raises (ensure_l2_flow selfips network_id none))
    >> call w.raises (tenant_update network_id none selfips lbs)
    >> call w.raises invalidate_cache
    >> pure true

add_attempt : World → Option LoadBalancer → Run Call Bool
unfolding add_found
add_attempt w none = raise no_result_found
add_attempt w (some lb) = add_found w lb

-- `tenacity.retry` on NoResultFound around the whole method, whatever raises it: `w n` is what the
-- n-th attempt meets, and `find n` the load balancer that it reads.
pub add_loadbalancer : (ℕ → World) → (ℕ → Option LoadBalancer) → Run Call Bool
unfolding add_attempt
add_loadbalancer w find = retry_on is_no_result 15 0 (λ n. add_attempt (w n) (find n))

-- The branch of `remove_loadbalancer` where other load balancers remain.
remove_one : World → String → List Port → List LoadBalancer → Run Call (Unit {0})
remove_one w network_id selfips remaining = ask_selfips w remaining false >>= λ selfips_remaining.
    call w.raises (sync_l2_selfips_and_subnet_routes_flow selfips_remaining network_id none)
    >> call w.raises (tenant_update network_id none selfips_remaining remaining)
    >> call w.raises (cleanup_selfips (keep (λ p. not (mem p selfips_remaining)) selfips))

-- The branch for the last load balancer.
remove_last : World → String → List Port → Run Call (Unit {0})
remove_last w network_id selfips =
    call w.raises (tenant_delete network_id none)
    >> call w.raises (remove_l2_flow network_id none)
    >> call w.raises (cleanup_selfips selfips)

remove_from : World → String → List Port → List LoadBalancer → Run Call (Unit {0})
unfolding remove_one remove_last
remove_from w network_id selfips [] = remove_last w network_id selfips
remove_from w network_id selfips (lb ∷ lbs) = remove_one w network_id selfips (lb ∷ lbs)

-- One attempt of `remove_loadbalancer`.
pub remove_found : World → LoadBalancer → Run Call Bool
unfolding remove_from
remove_found w lb =
    let network_id = lb.vip.network_id in
    let lbs = w.loadbalancers network_id in
    ask_selfips w lbs false >>= λ selfips.
    remove_from w network_id selfips (keep (λ o. not (has_id lb.id o)) lbs)
    >> call w.raises invalidate_cache
    >> pure true

remove_attempt : World → Option LoadBalancer → Run Call Bool
unfolding remove_found
remove_attempt w none = raise no_result_found
remove_attempt w (some lb) = remove_found w lb

pub remove_loadbalancer : (ℕ → World) → (ℕ → Option LoadBalancer) → Run Call Bool
unfolding remove_attempt
remove_loadbalancer w find = retry_on is_no_result 15 0 (λ n. remove_attempt (w n) (find n))
