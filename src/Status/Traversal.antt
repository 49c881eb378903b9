-- ===== src/Status/Traversal.antt =====
-- Which objects a status update reports, and as what.
use octavia_f5_provider_driv.Base.{
  Bool, true, false, ◌≡◌, refl, Option, none, some, List, [], ◌∷◌, ◌++◌, append-nil, append_assoc,
  arith,
}
use octavia_f5_provider_driv.Octavia.{
  ProvisioningStatus, Member, HealthMonitor, Pool, L7Rule, L7Policy, Listener, LoadBalancer,
  is_pending_delete,
}
use octavia_f5_provider_driv.Status.{
  Obj, Status, get_obj_type, status_obj, status_dict, under, loadbalancer_obj, listener_obj,
  pool_obj, member_obj, health_monitor_obj, l7policy_obj, l7rule_obj, l7rules_status,
  l7policies_status, listeners_status, members_status, health_monitor_status, pools_status,
  loadbalancer_status, collect_status,
}

-- The objects below a load balancer, in the order of the loops.
abbrev pub l7rule_objs : List L7Rule → List Obj
l7rule_objs [] = []
l7rule_objs (r ∷ rs) = l7rule_obj r ∷ l7rule_objs rs

abbrev pub l7policy_objs : List L7Policy → List Obj
l7policy_objs [] = []
l7policy_objs (p ∷ ps) = l7policy_obj p ∷ (l7rule_objs p.l7rules ++ l7policy_objs ps)

abbrev pub listener_objs : List Listener → List Obj
listener_objs [] = []
listener_objs (l ∷ ls) = listener_obj l ∷ (l7policy_objs l.l7policies ++ listener_objs ls)

abbrev pub member_objs : List Member → List Obj
member_objs [] = []
member_objs (m ∷ ms) = member_obj m ∷ member_objs ms

abbrev pub health_monitor_objs : Option HealthMonitor → List Obj
health_monitor_objs none = []
health_monitor_objs (some h) = health_monitor_obj h ∷ []

abbrev pub pool_objs : List Pool → List Obj
pool_objs [] = []
pool_objs (p ∷ ps) =
    pool_obj p ∷ (member_objs p.members ++ (health_monitor_objs p.health_monitor ++ pool_objs ps))

abbrev pub child_objs : LoadBalancer → List Obj
child_objs lb = listener_objs lb.listeners ++ pool_objs lb.pools

-- The status that an object is given, if it is updated at all.
abbrev pub new_status : Bool → ProvisioningStatus → Option ProvisioningStatus
new_status true _ = some ProvisioningStatus.deleted
new_status false ProvisioningStatus.error = none
new_status false ProvisioningStatus.active = none
new_status false ProvisioningStatus.pending_delete = some ProvisioningStatus.deleted
new_status false _ = some ProvisioningStatus.active

abbrev pub report : Obj → Option ProvisioningStatus → Status
report o none = []
report o (some s) = (get_obj_type o.kind, status_obj o s) ∷ []

abbrev pub reports : Bool → List Obj → Status
reports cascade [] = []
reports cascade (o ∷ os) = report o (new_status cascade o.provisioning_status) ++ reports cascade os

reports-append : (c : Bool) (xs ys : List Obj) → reports c (xs ++ ys) ≡ reports c xs ++ reports c ys
reports-append c [] ys = refl
reports-append c (x ∷ xs) ys = simp (reports-append c xs ys, append_assoc)

under-status_dict :
    (o : Obj) (c : Bool)
    → under (get_obj_type o.kind) (status_dict o c) ≡ report o (new_status c o.provisioning_status)
unfolding status_dict
under-status_dict o true = refl
under-status_dict o false = ground arith

module _ (c : Bool) where
  l7rules_status-eq : (rs : List L7Rule) → l7rules_status c rs ≡ reports c (l7rule_objs rs)
  unfolding l7rules_status get_obj_type
  l7rules_status-eq [] = refl
  l7rules_status-eq (r ∷ rs) = cc (under-status_dict (l7rule_obj r) c, l7rules_status-eq rs)

  l7policies_status-eq :
      (ps : List L7Policy) → l7policies_status c ps ≡ reports c (l7policy_objs ps)
  unfolding l7policies_status get_obj_type
  l7policies_status-eq [] = refl
  l7policies_status-eq (p ∷ ps) = cc (
    under-status_dict (l7policy_obj p) c,
    l7rules_status-eq p.l7rules,
    l7policies_status-eq ps,
    reports-append c (l7rule_objs p.l7rules) (l7policy_objs ps),
  )

  listeners_status-eq : (ls : List Listener) → listeners_status c ls ≡ reports c (listener_objs ls)
  unfolding listeners_status get_obj_type
  listeners_status-eq [] = refl
  listeners_status-eq (l ∷ ls) = cc (
    under-status_dict (listener_obj l) c,
    l7policies_status-eq l.l7policies,
    listeners_status-eq ls,
    reports-append c (l7policy_objs l.l7policies) (listener_objs ls),
  )

  members_status-eq : (ms : List Member) → members_status c ms ≡ reports c (member_objs ms)
  unfolding members_status get_obj_type
  members_status-eq [] = refl
  members_status-eq (m ∷ ms) = cc (under-status_dict (member_obj m) c, members_status-eq ms)

  health_monitor_status-eq :
      (h : Option HealthMonitor) → health_monitor_status c h ≡ reports c (health_monitor_objs h)
  unfolding health_monitor_status get_obj_type
  health_monitor_status-eq none = refl
  health_monitor_status-eq (some h) = cc (
    under-status_dict (health_monitor_obj h) c,
    append-nil (report (health_monitor_obj h) (new_status c h.provisioning_status)),
  )

  pools_status-eq : (ps : List Pool) → pools_status c ps ≡ reports c (pool_objs ps)
  unfolding pools_status get_obj_type
  pools_status-eq [] = refl
  pools_status-eq (p ∷ ps) = cc (
    under-status_dict (pool_obj p) c,
    members_status-eq p.members,
    health_monitor_status-eq p.health_monitor,
    pools_status-eq ps,
    reports-append c (member_objs p.members) (health_monitor_objs p.health_monitor ++ pool_objs ps),
    reports-append c (health_monitor_objs p.health_monitor) (pool_objs ps),
  )

-- What one load balancer contributes, by the table `new_status`.
abbrev pub loadbalancer_reports : LoadBalancer → Status
loadbalancer_reports lb =
    report (loadbalancer_obj lb) (new_status false lb.provisioning_status)
    ++ reports (is_pending_delete lb.provisioning_status) (child_objs lb)

abbrev pub all_reports : List LoadBalancer → Status
all_reports [] = []
all_reports (lb ∷ lbs) = loadbalancer_reports lb ++ all_reports lbs

loadbalancer_status-eq : (lb : LoadBalancer) → loadbalancer_status lb ≡ loadbalancer_reports lb
unfolding loadbalancer_status get_obj_type
loadbalancer_status-eq lb =
    let c = is_pending_delete lb.provisioning_status in
    cc (
      under-status_dict (loadbalancer_obj lb) false,
      listeners_status-eq c lb.listeners,
      pools_status-eq c lb.pools,
      reports-append c (listener_objs lb.listeners) (pool_objs lb.pools),
    )

-- The nested loops report every object of every load balancer exactly once, in the order of the
-- tree: as DELETED if its load balancer is PENDING_DELETE or the object itself is, not at all if it
-- is ACTIVE or in ERROR and its load balancer is not PENDING_DELETE, and as ACTIVE otherwise. A
-- load balancer in ERROR or ACTIVE is never reported.
pub collect_status-eq-reports : (lbs : List LoadBalancer) → collect_status lbs ≡ all_reports lbs
unfolding collect_status
collect_status-eq-reports [] = refl
collect_status-eq-reports (lb ∷ lbs) = cc (loadbalancer_status-eq lb, collect_status-eq-reports lbs)
