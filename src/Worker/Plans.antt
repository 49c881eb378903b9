-- ===== src/Worker/Plans.antt =====
-- The calls that synchronising a network makes, in their order.
use octavia_f5_provider_driv.Base.{
  String, true, ◌≡◌, inl, inr, refl, ◌∙◌, Option, List, [], ◌∷◌, ◌++◌, map, arith, if◌then◌else◌,
  Bool-cases,
}
use octavia_f5_provider_driv.Octavia.{LoadBalancer}
use octavia_f5_provider_driv.Runs.{
  call, pure, ◌>>◌, perform, call-perform, perform-append, >>=_assoc,
}
use octavia_f5_provider_driv.Worker.{
  Port, Call, ensure_selfips, tenant_delete, tenant_update, ensure_l2_flow,
  sync_l2_selfips_and_subnet_routes_flow, remove_l2_flow, cleanup_selfips, update_status,
  reset_in_use_quota, World, all_deleted, all_new_or_gone, any_new_or_gone, projects, f5sync,
  sync_l2, delete_network, update_network, reset_quotas,
}

-- What is done to the network and its devices.
abbrev pub l2_plan : String → Option String → List Port → List LoadBalancer → List Call
l2_plan network_id device selfips lbs =
    if all_new_or_gone lbs
    then ensure_l2_flow selfips network_id device ∷ []
    else if any_new_or_gone lbs
    then sync_l2_selfips_and_subnet_routes_flow selfips network_id device ∷ []
    else []

abbrev pub device_plan : String → Option String → List Port → List LoadBalancer → List Call
device_plan network_id device selfips lbs =
    if all_deleted lbs
    then tenant_delete network_id device
      ∷ remove_l2_flow network_id device
      ∷ cleanup_selfips selfips
      ∷ []
    else l2_plan network_id device selfips lbs ++ tenant_update network_id device selfips [] ∷ []

abbrev pub report_plan : List LoadBalancer → List Call
report_plan lbs = update_status lbs ∷ map reset_in_use_quota (projects lbs)

reset_quotas-perform :
    (w : World) (ps : List String)
    → reset_quotas w ps ≡ perform w.raises (map reset_in_use_quota ps)
unfolding reset_quotas
reset_quotas-perform w [] = refl
reset_quotas-perform w (p ∷ ps) = rw (reset_quotas-perform w ps)

delete_network-perform :
    (w : World) (network_id : String) (device : Option String) (selfips : List Port)
    → delete_network w network_id device selfips
      ≡ perform w.raises (
          tenant_delete network_id device
          ∷ remove_l2_flow network_id device
          ∷ cleanup_selfips selfips
          ∷ [])
unfolding delete_network
delete_network-perform w network_id device selfips = ground arith

sync_l2-perform :
    (w : World) (network_id : String) (device : Option String) (selfips : List Port)
    (lbs : List LoadBalancer)
    → sync_l2 w network_id device selfips lbs
      ≡ perform w.raises (l2_plan network_id device selfips lbs)
unfolding sync_l2
sync_l2-perform w network_id device selfips lbs = ground arith

update_network-perform :
    (w : World) (network_id : String) (device : Option String) (selfips : List Port)
    (lbs : List LoadBalancer)
    → update_network w network_id device selfips lbs
      ≡ perform w.raises
          (l2_plan network_id device selfips lbs ++ tenant_update network_id device selfips [] ∷ [])
unfolding update_network
update_network-perform w network_id device selfips lbs =
    let update = tenant_update network_id device selfips [] in
    rw (
      perform-append w.raises (l2_plan network_id device selfips lbs) (update ∷ []),
      sync_l2-perform w network_id device selfips lbs,
      call-perform w.raises update,
    )

-- All that `f5sync` does after the database was read.
abbrev pub sync_plan : World → String → Option String → List Call
sync_plan w network_id device =
    let lbs = w.loadbalancers network_id in
    ensure_selfips lbs true ∷ device_plan network_id device (w.selfips lbs) lbs

branch-perform :
    (w : World) (network_id : String) (device : Option String) (selfips : List Port)
    (lbs : List LoadBalancer)
    → (if all_deleted lbs
        then delete_network w network_id device selfips
        else update_network w network_id device selfips lbs)
      ≡ perform w.raises (device_plan network_id device selfips lbs)
branch-perform w network_id device selfips lbs = elim (Bool-cases (all_deleted lbs)) [
  | inl gone ↦ rw gone (delete_network-perform w network_id device selfips)
  | inr stays ↦ rw stays (update_network-perform w network_id device selfips lbs)
]

rest-perform :
    (w : World) (network_id : String) (device : Option String) (selfips : List Port)
    (lbs : List LoadBalancer)
    → ((if all_deleted lbs
          then delete_network w network_id device selfips
          else update_network w network_id device selfips lbs)
        >> call w.raises (update_status lbs)
        >> reset_quotas w (projects lbs))
      ≡ perform w.raises (device_plan network_id device selfips lbs ++ report_plan lbs)
rest-perform w network_id device selfips lbs =
    let branch =
      (if all_deleted lbs
        then delete_network w network_id device selfips
        else update_network w network_id device selfips lbs) in
    >>=_assoc branch (λ _. call w.raises (update_status lbs)) (λ _. reset_quotas w (projects lbs))
    ∙ rw (
      branch-perform w network_id device selfips lbs,
      reset_quotas-perform w (projects lbs),
      perform-append w.raises (device_plan network_id device selfips lbs) (report_plan lbs),
    )

-- Synchronising a network makes the planned calls in their order, up to the first one that raises:
-- the SelfIPs are ensured first. If all load balancers of the network are PENDING_DELETE, or there
-- are none, the tenant is deleted before its network and its SelfIPs are. Otherwise the tenant is
-- updated after the network: after all of its network if every load balancer is PENDING_CREATE or
-- PENDING_DELETE, after the SelfIPs and routes if some are. Last, all load balancers are reported
-- and the quotas of their projects are reset.
pub f5sync-perform :
    (w : World) (network_id : String) (device : Option String)
    → f5sync w network_id device
      ≡ perform w.raises (sync_plan w network_id device ++ report_plan (w.loadbalancers network_id))
unfolding f5sync
f5sync-perform w network_id device =
    let lbs = w.loadbalancers network_id in
    rw (
      >>=_assoc (call w.raises (ensure_selfips lbs true)) (λ _. pure (w.selfips lbs))
          (λ selfips.
            (if all_deleted lbs
              then delete_network w network_id device selfips
              else update_network w network_id device selfips lbs)
            >> call w.raises (update_status lbs)
            >> reset_quotas w (projects lbs)),
      rest-perform w network_id device (w.selfips lbs) lbs,
    )
