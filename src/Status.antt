-- ===== src/Status.antt =====
-- octavia_f5/controller/worker/status_manager.py: the status updates that follow a synchronisation.
pub mod Traversal
pub mod Send
mod Examples
use octavia_f5_provider_driv.Base.{
  ◌&&◌, ℕ, zero, suc, String, Bool, true, false, Option, none, some, List, [], ◌∷◌, ◌++◌, map,
  if◌then◌else◌,
}
use octavia_f5_provider_driv.Octavia.{
  ProvisioningStatus, OperatingStatus, online, HealthMonitor, Member, Pool, L7Rule, L7Policy,
  Listener, LoadBalancer, is_pending_delete,
}

-- The class of an object, which `isinstance` tests, and the key that `get_obj_type` returns for it.
pub data Kind : Type 0 where
  loadbalancer listener pool member health_monitor l7policy l7rule : Kind

pub data ObjType : Type 0 where
  loadbalancers listeners pools members healthmonitors l7policies l7rules : ObjType

pub get_obj_type : Kind → ObjType
get_obj_type loadbalancer = loadbalancers
get_obj_type listener = listeners
get_obj_type pool = pools
get_obj_type member = members
get_obj_type health_monitor = healthmonitors
get_obj_type l7policy = l7policies
get_obj_type l7rule = l7rules

-- What the status manager reads of an object.
pub record Obj : Type 0 where
  pub kind : Kind
  pub id : String
  pub provisioning_status : ProvisioningStatus

pub record StatusObj : Type 0 where
  pub id : String
  pub provisioning_status : ProvisioningStatus
  pub operating_status : Option OperatingStatus

-- Members alone get no operating status.
abbrev operating_status : Kind → ProvisioningStatus → Option OperatingStatus
operating_status member _ = none
operating_status _ ProvisioningStatus.active = some online
operating_status _ _ = none

pub status_obj : Obj → ProvisioningStatus → StatusObj
status_obj o s = record {
  id = o.id;
  provisioning_status = s;
  operating_status = operating_status o.kind s;
}

by_status : Obj → ProvisioningStatus → List StatusObj
unfolding status_obj
by_status o ProvisioningStatus.error = []
by_status o ProvisioningStatus.active = []
by_status o ProvisioningStatus.pending_delete = status_obj o ProvisioningStatus.deleted ∷ []
by_status o _ = status_obj o ProvisioningStatus.active ∷ []

pub status_dict : Obj → Bool → List StatusObj
unfolding by_status
status_dict o cascade =
    if cascade
    then status_obj o ProvisioningStatus.deleted ∷ []
    else by_status o o.provisioning_status

-- The `defaultdict(list)`, as the sequence of the items that its lists are extended by.
abbrev pub Status : Type 0
Status = List (ObjType × StatusObj)

abbrev under : ObjType → List StatusObj → Status
under t = map (λ s. (t, s))

abbrev pub loadbalancer_obj : LoadBalancer → Obj
loadbalancer_obj o = record {
  kind = loadbalancer;
  id = o.id;
  provisioning_status = o.provisioning_status;
}

abbrev pub listener_obj : Listener → Obj
listener_obj o = record { kind = listener; id = o.id; provisioning_status = o.provisioning_status }

abbrev pub pool_obj : Pool → Obj
pool_obj o = record { kind = pool; id = o.id; provisioning_status = o.provisioning_status }

abbrev pub member_obj : Member → Obj
member_obj o = record { kind = member; id = o.id; provisioning_status = o.provisioning_status }

abbrev pub health_monitor_obj : HealthMonitor → Obj
health_monitor_obj o = record {
  kind = health_monitor;
  id = o.id;
  provisioning_status = o.provisioning_status;
}

abbrev pub l7policy_obj : L7Policy → Obj
l7policy_obj o = record { kind = l7policy; id = o.id; provisioning_status = o.provisioning_status }

abbrev pub l7rule_obj : L7Rule → Obj
l7rule_obj o = record { kind = l7rule; id = o.id; provisioning_status = o.provisioning_status }

-- The loops of `update_status`, innermost first; each extends the lists by what it returns.
l7rules_status : Bool → List L7Rule → Status
l7rules_status cascade [] = []
l7rules_status cascade (r ∷ rs) =
    under l7rules (status_dict (l7rule_obj r) cascade) ++ l7rules_status cascade rs

l7policies_status : Bool → List L7Policy → Status
unfolding l7rules_status
l7policies_status cascade [] = []
l7policies_status cascade (p ∷ ps) =
    under l7policies (status_dict (l7policy_obj p) cascade)
    ++ (l7rules_status cascade p.l7rules ++ l7policies_status cascade ps)

listeners_status : Bool → List Listener → Status
unfolding l7policies_status
listeners_status cascade [] = []
listeners_status cascade (l ∷ ls) =
    under listeners (status_dict (listener_obj l) cascade)
    ++ (l7policies_status cascade l.l7policies ++ listeners_status cascade ls)

members_status : Bool → List Member → Status
members_status cascade [] = []
members_status cascade (m ∷ ms) =
    under members (status_dict (member_obj m) cascade) ++ members_status cascade ms

health_monitor_status : Bool → Option HealthMonitor → Status
health_monitor_status cascade none = []
health_monitor_status cascade (some h) =
    under healthmonitors (status_dict (health_monitor_obj h) cascade)

pools_status : Bool → List Pool → Status
unfolding members_status health_monitor_status
pools_status cascade [] = []
pools_status cascade (p ∷ ps) =
    under pools (status_dict (pool_obj p) cascade)
    ++ (members_status cascade p.members
        ++ (health_monitor_status cascade p.health_monitor ++ pools_status cascade ps))

loadbalancer_status : LoadBalancer → Status
unfolding listeners_status pools_status
loadbalancer_status lb =
    let cascade = is_pending_delete lb.provisioning_status in
    under loadbalancers (status_dict (loadbalancer_obj lb) false)
    ++ (listeners_status cascade lb.listeners ++ pools_status cascade lb.pools)

-- `update_status`, up to the call that sends the result.
pub collect_status : List LoadBalancer → Status
unfolding loadbalancer_status
collect_status [] = []
collect_status (lb ∷ lbs) = loadbalancer_status lb ++ collect_status lbs

-- What `_update_status_to_octavia` does to the outside.
pub data Call : Type 0 where
  update_loadbalancer_status : Status → Call
  amphora_deleted : (lb_id : String) → Call

-- The `finally` block: the load balancers that were reported as DELETED.
abbrev amphora_entry : ObjType → StatusObj → List Call
amphora_entry loadbalancers s = elim s.provisioning_status [
  | ProvisioningStatus.deleted ↦ amphora_deleted s.id ∷ []
  | _ ↦ []
]
amphora_entry _ s = []

amphora_updates : Status → List Call
amphora_updates [] = []
amphora_updates ((t, s) ∷ r) = amphora_entry t s ++ amphora_updates r

-- What the outside answers: whether the n-th call of the driver library returns, and whether the
-- update of an amphora entry returns in the n-th attempt.
pub record Answers : Type 0 where
  pub succeeds : ℕ → Bool
  pub updates : ℕ → String → Bool

abbrev pub returns_in : Answers → ℕ → Call → Bool
returns_in a n (update_loadbalancer_status s) = a.succeeds n
returns_in a n (amphora_deleted id) = a.updates n id

-- Calls up to the first that raises, and whether all returned.
pub ran : (Call → Bool) → List Call → List Call × Bool
ran returns [] = ([], true)
ran returns (c ∷ cs) =
    let rest = ran returns cs in if returns c then (c ∷ rest.0, rest.1) else (c ∷ [], false)

-- One attempt calls the driver library, and runs the `finally` block whether or not that raised; an
-- update that raises there ends the block, and the attempt has failed.
attempt : Answers → ℕ → Status → List Call × Bool
unfolding amphora_updates ran
attempt a n s =
    let finally = ran (returns_in a n) (amphora_updates s) in
    (update_loadbalancer_status s ∷ finally.0, a.succeeds n && finally.1)

-- `tenacity.retry` on any exception. The result is false if the last attempt raised.
retry : ℕ → ℕ → Answers → Status → List Call × Bool
unfolding attempt
retry zero n a s = ([], false)
retry (suc left) n a s =
    let rest = retry left (suc n) a s in
    if (attempt a n s).1 then ((attempt a n s).0, true) else ((attempt a n s).0 ++ rest.0, rest.1)

pub update_status_to_octavia : Answers → Status → List Call × Bool
unfolding retry
update_status_to_octavia = retry 3 0

pub update_status : Answers → List LoadBalancer → List Call × Bool
unfolding collect_status update_status_to_octavia
update_status a lbs = update_status_to_octavia a (collect_status lbs)

-- The object with its new status, and the calls.
pub set_error : Answers → Obj → Obj × (List Call × Bool)
unfolding update_status_to_octavia get_obj_type status_obj
set_error a o =
    let o' : Obj = record o { provisioning_status = ProvisioningStatus.error } in
    (
      o',
      update_status_to_octavia a
          ((get_obj_type o.kind, status_obj o' ProvisioningStatus.error) ∷ []),
    )
