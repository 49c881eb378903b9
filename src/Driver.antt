-- ===== src/Driver.antt =====
-- octavia_f5/api/drivers/f5_driver/driver.py: the messages that the API sends to the workers.
pub mod Routing
mod Examples
use octavia_f5_provider_driv.Base.{
  ℕ, String, Bool, true, false, not, Option, none, some, List, [], ◌∷◌, ◌==◌, ltb, Result, ok, err,
  attribute_error, validation_exception, and_then, if◌then◌else◌,
}

-- What the repositories and the network driver say: the load balancer of a pool and of a listener, the
-- listener of a policy, the host and the VIP port of a load balancer, and the host of a port.
-- `none` is a row that is not there.
pub record World : Type 0 where
  pub pool : String → Option String
  pub listener : String → Option String
  pub l7policy : String → Option String
  pub loadbalancer : String → Option (String × String)
  pub get_scheduled_host : String → String

-- A message to a server; `none` is the client as it is, not prepared for a server. `call` waits
-- for the answer.
pub record Message : Type 0 where
  pub server : Option String
  pub method : String
  pub id : String
  pub call : Bool

-- `_get_server`: the host of the load balancer, or else that of its VIP port.
pub get_server : World → String → Result String
get_server w id = elim (w.loadbalancer id) [
  | none ↦ err attribute_error
  | some lb ↦ ok (if lb.0 == "" then w.get_scheduled_host lb.1 else lb.0)
]

abbrev pub cast_to : String → String → String → Result Message
cast_to host method id = ok (record { server = some host; method = method; id = id; call = false })

-- client = self.client.prepare(server=self._get_server(lb)); client.cast({}, method, id)
abbrev pub cast : World → String → String → String → Result Message
cast w lb method id = and_then (get_server w lb) (λ host. cast_to host method id)

-- The attribute of a row that may be missing.
abbrev pub required : Option String → Result String
required none = err attribute_error
required (some a) = ok a

abbrev pub cast_by_pool : World → String → String → String → Result Message
cast_by_pool w pool_id method id = and_then (required (w.pool pool_id)) (λ lb. cast w lb method id)

abbrev pub listener_lb : World → String → Result String
listener_lb w listener_id = required (w.listener listener_id)

abbrev pub policy_lb : World → String → Result String
policy_lb w policy_id = and_then (required (w.l7policy policy_id)) (λ l. listener_lb w l)

-- The requests of the API. A load balancer is created with its VIP port, and added or removed at a
-- host; the other objects carry the id by which the code finds their load balancer.
pub data LbRequest : Type 0 where
  create : (id vip_port : String) → LbRequest
  delete failover update : (id : String) → LbRequest
  add remove : (id target_host : String) → LbRequest

pub data Action : Type 0 where
  created updated deleted : Action

pub loadbalancer_request : World → LbRequest → Result Message
unfolding get_server
loadbalancer_request w (create id port) =
    cast_to (w.get_scheduled_host port) "create_load_balancer" id
loadbalancer_request w (delete id) = cast w id "delete_load_balancer" id
loadbalancer_request w (failover id) = cast w id "failover_load_balancer" id
loadbalancer_request w (update id) = cast w id "update_load_balancer" id
loadbalancer_request w (add id host) =
    ok (record { server = some host; method = "add_loadbalancer"; id = id; call = true })
loadbalancer_request w (remove id host) =
    ok (record { server = some host; method = "remove_loadbalancer"; id = id; call = true })

pub listener_request : World → Action → String → String → Result Message
unfolding get_server
listener_request w created id lb = cast w lb "create_listener" id
listener_request w updated id lb = cast w lb "update_listener" id
listener_request w deleted id lb = cast w lb "delete_listener" id

pub pool_request : World → Action → String → String → Result Message
unfolding get_server
pool_request w created id lb = cast w lb "create_pool" id
pool_request w updated id lb = cast w lb "update_pool" id
pool_request w deleted id lb = cast w lb "delete_pool" id

pub member_request : World → Action → String → String → Result Message
unfolding get_server
member_request w created id pool = cast_by_pool w pool "create_member" id
member_request w updated id pool = cast_by_pool w pool "update_member" id
member_request w deleted id pool = cast_by_pool w pool "delete_member" id

-- The payload holds three empty lists.
pub member_batch_update : World → String → Result Message
unfolding get_server
member_batch_update w pool = cast_by_pool w pool "batch_update_members" ""

-- HEALTH_MONITOR_DELAY_MAX
abbrev pub health_monitor_delay_max : ℕ
health_monitor_delay_max = 3600

-- `_health_monitor_check`: a delay that is not given is 0 here.
pub health_monitor_check : ℕ → Result (Unit {0})
health_monitor_check delay =
    if ltb health_monitor_delay_max delay then err validation_exception else ok tt

pub health_monitor_request : World → Action → String → String → ℕ → Result Message
unfolding get_server health_monitor_check
health_monitor_request w created id pool delay =
    and_then (health_monitor_check delay) (λ _. cast_by_pool w pool "create_health_monitor" id)
health_monitor_request w updated id pool delay =
    and_then (health_monitor_check delay) (λ _. cast_by_pool w pool "update_health_monitor" id)
health_monitor_request w deleted id pool delay = cast_by_pool w pool "delete_health_monitor" id

-- An update is prepared for the server, but cast on the client as it is.
pub l7policy_request : World → Action → String → String → Result Message
unfolding get_server
l7policy_request w created id listener =
    and_then (listener_lb w listener) (λ lb. cast w lb "create_l7policy" id)
l7policy_request w updated id listener = and_then (listener_lb w listener) (λ lb.
    and_then (get_server w lb)
      (λ host. ok (record { server = none; method = "update_l7policy"; id = id; call = false })))
l7policy_request w deleted id listener =
    and_then (listener_lb w listener) (λ lb. cast w lb "delete_l7policy" id)

pub l7rule_request : World → Action → String → String → Result Message
unfolding get_server
l7rule_request w created id policy =
    and_then (policy_lb w policy) (λ lb. cast w lb "create_l7rule" id)
l7rule_request w updated id policy =
    and_then (policy_lb w policy) (λ lb. cast w lb "update_l7rule" id)
l7rule_request w deleted id policy =
    and_then (policy_lb w policy) (λ lb. cast w lb "delete_l7rule" id)
