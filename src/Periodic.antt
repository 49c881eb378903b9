-- ===== src/Periodic.antt =====
-- The periodic tasks of octavia_f5/controller/worker/controller_worker.py: which networks they queue.
pub mod Networks
pub mod TenantNames
mod Examples
use Prim.Native.Char.{Char, code}
use octavia_f5_provider_driv.Base.{
  ℕ, String, Bool, true, false, not, ◌&&◌, Option, none, some, List, [], ◌∷◌, ◌++◌, ◌==◌, mem, keep,
  map, eqb, if◌then◌else◌, Exception,
}
use octavia_f5_provider_driv.Octavia.{LoadBalancer}
use octavia_f5_provider_driv.Runs.{Run, pure, call, ◌>>=◌, ◌>>◌}
use octavia_f5_provider_driv.Text.{replace_char}
use octavia_f5_provider_driv.Handlers.{
  Call, put, set_amphora_ready, World, delete_load_balancer, ensure_host_set, ensure_amphora_exists,
}

-- What the repositories return for this host: the load balancers by their provisioning status, and
-- those of the pending listeners, pools and policies. `scheduled_host` is the host that the network
-- driver names for a port.
pub record Pending : Type 0 where
  pub pending_delete : List LoadBalancer
  pub pending_create : List LoadBalancer
  pub pending_update : List LoadBalancer
  pub of_listeners : List LoadBalancer
  pub of_pools : List LoadBalancer
  pub of_l7policies : List LoadBalancer
  pub scheduled_host : String → String

-- `set(lb.vip.network_id for lb in lbs)`; a set has no order, and this keeps the last places.
abbrev pub networks : List LoadBalancer → List String
networks [] = []
networks (lb ∷ lbs) =
    let rest = networks lbs in if mem lb.vip.network_id rest then rest else lb.vip.network_id ∷ rest

-- for x in xs: f(x)
abbrev pub for_each : {A : Type 0} → List A → (A → Run Call (Unit {0})) → Run Call (Unit {0})
for_each [] f = pure tt
for_each (x ∷ xs) f = f x >> for_each xs f

abbrev pub put_networks : World → Option String → List String → Run Call (Unit {0})
put_networks w device ns = for_each ns (λ n. call w.raises (put n device))

-- The load balancers that pending_create holds and that are scheduled to this host.
abbrev pub scheduled : World → Pending → List LoadBalancer
scheduled w p = keep (λ lb. w.host == p.scheduled_host lb.vip.port_id) p.pending_create

pub pending_sync : World → Pending → Run Call (Unit {0})
pending_sync w p =
    let lbs = scheduled w p ++ p.pending_update in
    let all_lbs = lbs ++ (p.of_listeners ++ (p.of_pools ++ p.of_l7policies)) in
    for_each p.pending_delete (λ lb. delete_load_balancer w lb.id)
    >> for_each (scheduled w p) (λ lb. ensure_host_set w lb)
    >> for_each lbs (λ lb. ensure_amphora_exists w lb.id)
    >> put_networks w none (networks all_lbs)

-- tenant_name.replace('net_', '').replace('_', '-')
abbrev is_net : Char → Char → Char → Char → Bool
is_net a b c d =
    eqb (code a) (code "n")
    && eqb (code b) (code "e")
    && eqb (code c) (code "t")
    && eqb (code d) (code "_")

remove_prefix_network : String → String
remove_prefix_network (String.◌∷◌ a (String.◌∷◌ b (String.◌∷◌ c (String.◌∷◌ d s)))) =
    let rest = remove_prefix_network s in
    let next = remove_prefix_network (String.◌∷◌ b (String.◌∷◌ c (String.◌∷◌ d s))) in
    if is_net a b c d then rest else String.◌∷◌ a next
remove_prefix_network s = s

pub network_id_of : String → String
unfolding remove_prefix_network replace_char
network_id_of tenant_name = replace_char "_" "-" (remove_prefix_network tenant_name)

-- `cleanup_orphaned_tenants`, for one device: its tenants' names, and the load balancers of a
-- network that are not deleted. A device whose tenants cannot be read is skipped.
pub cleanup_device :
    World → (String → List LoadBalancer) → String → List String → Run Call (Unit {0})
unfolding network_id_of
cleanup_device w loadbalancers device [] = pure tt
cleanup_device w loadbalancers device (t ∷ ts) =
    (elim (loadbalancers (network_id_of t)) [
      | [] ↦ call w.raises (put (network_id_of t) (some device))
      | _ ↦ pure tt
    ])
    >> cleanup_device w loadbalancers device ts

-- An amphora entry that stands for a device which is booting.
pub record BootingDevice : Type 0 where
  pub id : String
  pub cached_zone : String
  pub is_backup : Bool

-- `full_sync_reappearing_devices`, for the load balancers of this host.
pub full_sync_reappearing_devices :
    World → Bool → List LoadBalancer → List BootingDevice → Run Call (Unit {0})
full_sync_reappearing_devices w migration lbs [] = pure tt
full_sync_reappearing_devices w migration lbs (d ∷ ds) =
    (if migration && not d.is_backup
      then pure tt
      else put_networks w (some d.cached_zone) (networks lbs)
        >> call w.raises (set_amphora_ready d.id))
    >> full_sync_reappearing_devices w migration lbs ds
