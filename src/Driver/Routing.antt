-- ===== src/Driver/Routing.antt =====
-- Where the messages go.
use octavia_f5_provider_driv.Base.{
  ℕ, String, Bool, true, false, ◌≡◌, refl, none, some, ltb, Result, ok, err, validation_exception,
  Bool-cases, inl, inr, and_then, if◌then◌else◌,
}
use octavia_f5_provider_driv.Text.{concat}
use octavia_f5_provider_driv.Driver.{
  World, Message, get_server, required, listener_lb, policy_lb, Action, created, updated, deleted,
  health_monitor_delay_max, health_monitor_check, listener_request, pool_request, member_request,
  health_monitor_request, l7policy_request, l7rule_request,
}

-- A request about an object below a load balancer: its kind, and the id by which its load balancer is found.
pub data Request : Type 0 where
  listener : (id lb : String) → Request
  pool : (id lb : String) → Request
  member : (id pool : String) → Request
  health_monitor : (id pool : String) (delay : ℕ) → Request
  l7policy : (id listener : String) → Request
  l7rule : (id policy : String) → Request

abbrev pub request : World → Action → Request → Result Message
request w a (listener id lb) = listener_request w a id lb
request w a (pool id lb) = pool_request w a id lb
request w a (member id p) = member_request w a id p
request w a (health_monitor id p delay) = health_monitor_request w a id p delay
request w a (l7policy id l) = l7policy_request w a id l
request w a (l7rule id p) = l7rule_request w a id p

-- The load balancer of the object.
abbrev pub lb_of : World → Request → Result String
lb_of w (listener id lb) = ok lb
lb_of w (pool id lb) = ok lb
lb_of w (member id p) = required (w.pool p)
lb_of w (health_monitor id p delay) = required (w.pool p)
lb_of w (l7policy id l) = listener_lb w l
lb_of w (l7rule id p) = policy_lb w p

abbrev pub verb : Action → String
verb created = "create_"
verb updated = "update_"
verb deleted = "delete_"

abbrev pub is_update : Action → Bool
is_update updated = true
is_update _ = false

-- The health monitor whose delay is checked, if it is more than the maximum.
abbrev pub is_refused : Action → Request → Bool
is_refused deleted (health_monitor id p delay) = false
is_refused _ (health_monitor id p delay) = ltb health_monitor_delay_max delay
is_refused _ _ = false

abbrev pub is_unprepared : Action → Request → Bool
is_unprepared a (l7policy id l) = is_update a
is_unprepared a _ = false

abbrev pub kind : Request → String
kind (listener id lb) = "listener"
kind (pool id lb) = "pool"
kind (member id p) = "member"
kind (health_monitor id p delay) = "health_monitor"
kind (l7policy id l) = "l7policy"
kind (l7rule id p) = "l7rule"

abbrev pub id_of : Request → String
id_of (listener id lb) = id
id_of (pool id lb) = id
id_of (member id p) = id
id_of (health_monitor id p delay) = id
id_of (l7policy id l) = id
id_of (l7rule id p) = id

-- The message to the host of the object's load balancer.
abbrev pub to_host : World → Action → Request → Result Message
to_host w a r = and_then (lb_of w r) (λ lb. and_then (get_server w lb) (λ host. ok (record {
  server = if is_unprepared a r then none else some host;
  method = concat (verb a) (kind r);
  id = id_of r;
  call = false;
})))

-- Whether an update or creation of a health monitor passes the check of its delay.
checked :
    (delay : ℕ) (r : Result Message)
    → and_then (health_monitor_check delay) (λ _. r)
      ≡ (if ltb health_monitor_delay_max delay then err validation_exception else r)
unfolding health_monitor_check
checked delay r = elim (Bool-cases (ltb health_monitor_delay_max delay)) [
  | inl high ↦ rw high refl
  | inr low ↦ rw low refl
]

-- Each of the 18 requests for the objects below a load balancer is sent, as one cast of its own method and
-- with its own id, to the host of the load balancer: its server group, or the host of its VIP
-- port. It fails if a row is missing on the way, and creations and updates of a health monitor are
-- refused if the delay is more than the maximum. The exception is the update of an L7 policy, which
-- is sent to no server in particular.
pub request-to_host :
    (w : World) (a : Action) (r : Request)
    → request w a r ≡ (if is_refused a r then err validation_exception else to_host w a r)
unfolding listener_request pool_request member_request health_monitor_request l7policy_request
    l7rule_request
request-to_host w created (listener id lb) = refl
request-to_host w updated (listener id lb) = refl
request-to_host w deleted (listener id lb) = refl
request-to_host w created (pool id lb) = refl
request-to_host w updated (pool id lb) = refl
request-to_host w deleted (pool id lb) = refl
request-to_host w created (member id p) = refl
request-to_host w updated (member id p) = refl
request-to_host w deleted (member id p) = refl
request-to_host w created (health_monitor id p delay) = checked delay _
request-to_host w updated (health_monitor id p delay) = checked delay _
request-to_host w deleted (health_monitor id p delay) = refl
request-to_host w created (l7policy id l) = refl
request-to_host w updated (l7policy id l) = refl
request-to_host w deleted (l7policy id l) = refl
request-to_host w created (l7rule id p) = refl
request-to_host w updated (l7rule id p) = refl
request-to_host w deleted (l7rule id p) = refl
