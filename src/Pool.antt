-- ===== src/Pool.antt =====
-- octavia_f5/restclient/as3objects/pool.py and pool_member.py: Octavia pools and members as AS3
-- objects, and the members that are marked as failed on the way.
pub mod Weights
mod Examples
pub mod Members
pub mod Mode
use octavia_f5_provider_driv.Base.{
  ℕ, ◌+◌, ◌*◌, ◌/◌, String, Bool, true, false, ◌||◌, ◌&&◌, Option, none, some, List, [], ◌∷◌, ◌++◌,
  not, ◌==◌, ltb, eqb, any, mem, if◌then◌else◌,
}
use octavia_f5_provider_driv.Octavia.{HealthMonitor, Member, Pool, or_else, is_pending_delete}
use octavia_f5_provider_driv.Text.{f5label, f5remark, upper}
use octavia_f5_provider_driv.Names.{pool_name, monitor_name}
use octavia_f5_provider_driv.Monitor.{Conf, Monitor, get_monitor}

-- The ceiling of weight / 256 * 100. The floats of the source are exact here: a weight is at most
-- 256, so both operations stay within 53 bits.
pub normalize_weight : ℕ → ℕ
normalize_weight weight = (weight * 100 + 255) / 256

pub record As3Member : Type 0 where
  pub service_port : ℕ
  pub server_addresses : List String
  pub admin_state : String
  pub ratio : ℕ
  pub priority_group : Option ℕ
  pub monitors : List String
  pub remark : String

-- member.monitor_address or member.monitor_port
abbrev pub has_custom_monitor : Member → Bool
has_custom_monitor m = not (m.monitor_address == "") || ltb 0 m.monitor_port

pub get_member : Member → Bool → Bool → As3Member
get_member m enable_priority_group with_monitors = record {
  service_port = m.protocol_port;
  server_addresses = m.ip_address ∷ [];
  admin_state = if eqb m.weight 0 then "disable" else if m.enabled then "enable" else "disable";
  ratio = if eqb m.weight 0 then 1 else normalize_weight m.weight;
  priority_group = if enable_priority_group then some (if m.backup then 1 else 2) else none;
  monitors = if with_monitors && has_custom_monitor m then monitor_name m.id ∷ [] else [];
  remark = f5remark m.id;
}

-- `_get_lb_method`
pub get_lb_method : String → String
get_lb_method method =
    let lb_method = upper method in
    if lb_method == "LEAST_CONNECTIONS"
    then "least-connections-member"
    else if lb_method == "RATIO_LEAST_CONNECTIONS"
    then "ratio-least-connections-member"
    else if lb_method == "SOURCE_IP"
    then "round-robin"
    else if lb_method == "OBSERVED_MEMBER"
    then "observed-member"
    else if lb_method == "PREDICTIVE_MEMBER"
    then "predictive-member"
    else if lb_method == "RATIO"
    then "ratio-member"
    else "round-robin"

-- The loop that sets `member_has_weight`.
abbrev pub member_has_weight : List Member → Bool
member_has_weight members =
    any members (λ m. not (is_pending_delete m.provisioning_status) && ltb 1 m.weight)

-- `_set_lb_method`
pub set_lb_method : String → List Member → String
set_lb_method lbaas_lb_method members =
    let lb_method = get_lb_method lbaas_lb_method in
    if lb_method == "SOURCE_IP"
    then lb_method
    else if member_has_weight members
    then (if lb_method == "LEAST_CONNECTIONS"
        then get_lb_method "RATIO_LEAST_CONNECTIONS"
        else get_lb_method "RATIO")
    else lb_method

pub record As3Pool : Type 0 where
  pub label : String
  pub remark : String
  pub load_balancing_mode : String
  pub members : List As3Member
  pub monitors : List String

pub data Entity : Type 0 where
  monitor : Option Monitor → Entity
  pool : As3Pool → Entity

-- What the loop over the members gathers: the members of the AS3 pool, the members that
-- `status.set_error` is called for, and the entities of custom monitors.
pub record Gathered : Type 0 where
  pub accepted : List As3Member
  pub errors : List Member
  pub entities : List (String × Entity)

-- pool.health_monitor, as a condition
abbrev pub is_some {ℓ} : {A : Type ℓ} → Option A → Bool
is_some none = false
is_some (some _) = true

-- The monitor of a member that has an address or a port of its own for it.
custom_monitor : Conf → Option HealthMonitor → Member → List (String × Entity)
custom_monitor conf none m = []
custom_monitor conf (some hm) m =
    if has_custom_monitor m
    then (
      monitor_name m.id,
      monitor (
          get_monitor conf hm (or_else m.monitor_address m.ip_address)
            (if eqb m.monitor_port 0 then m.protocol_port else m.monitor_port)),
    )
      ∷ []
    else []

module _ (conf : Conf) (ips_to_skip : List String) (health_monitor : Option HealthMonitor)
    (priority : Bool) where
  -- The loop body for a member: the rest of the loop is `r`.
  gather_member : Member → Gathered → Gathered
  gather_member m r =
      if is_pending_delete m.provisioning_status
      then r
      else if mem m.ip_address ips_to_skip
      then record r { errors = m ∷ r.errors }
      else if m.ip_address == "0.0.0.0"
      then record r { errors = m ∷ r.errors }
      else record r {
        accepted = get_member m priority (is_some health_monitor) ∷ r.accepted;
        entities = custom_monitor conf health_monitor m ++ r.entities;
      }

  gather : List Member → Gathered
  gather [] = record { accepted = []; errors = []; entities = [] }
  gather (m ∷ ms) = gather_member m (gather ms)

-- The monitor of the pool itself, unless there is none or it is about to be deleted.
pool_monitor : Conf → Option HealthMonitor → List (String × Entity)
pool_monitor conf none = []
pool_monitor conf (some hm) =
    if is_pending_delete hm.provisioning_status
    then []
    else (monitor_name hm.id, monitor (get_monitor conf hm "" 0)) ∷ []

pool_monitor_names : Option HealthMonitor → List String
pool_monitor_names none = []
pool_monitor_names (some hm) =
    if is_pending_delete hm.provisioning_status then [] else monitor_name hm.id ∷ []

abbrev enable_priority_group : Pool → Bool
enable_priority_group p = any p.members (λ (m : Member). m.backup)

-- The arguments of the AS3 pool.
pub as3_pool : Conf → Pool → List String → As3Pool
as3_pool conf p ips_to_skip = record {
  label = f5label (or_else p.name p.description);
  remark = f5remark (or_else p.description p.name);
  load_balancing_mode = set_lb_method (upper p.lb_algorithm) p.members;
  members = (gather conf ips_to_skip p.health_monitor (enable_priority_group p) p.members).accepted;
  monitors = pool_monitor_names p.health_monitor;
}

-- The entities of the pool, and the members that `status.set_error` is called for.
pub get_pool : Conf → Pool → List String → List (String × Entity) × List Member
unfolding as3_pool
get_pool conf p ips_to_skip =
    let g = gather conf ips_to_skip p.health_monitor (enable_priority_group p) p.members in
    (
      g.entities
          ++ (pool_monitor conf p.health_monitor
              ++ ((pool_name p.id, pool (as3_pool conf p ips_to_skip)) ∷ [])),
      g.errors,
    )
