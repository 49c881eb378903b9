-- ===== src/Heartbeat.antt =====
-- The messages that `heartbeat` of octavia_f5/controller/statusmanager/status_manager.py builds from
-- the statistics of the active device, one for each load balancer.
pub mod Paths
pub mod Messages
pub mod Reported
mod Examples
use Prim.Native.Char.{Char, code}
use octavia_f5_provider_driv.Base.{
  ℕ, suc, String, Bool, true, false, Option, none, some, List, [], ◌∷◌, ◌==◌, length, eqb, Dict,
  lookup, insert, Result, ok, err, index_error, and_then, get_last?, if◌then◌else◌,
}
use octavia_f5_provider_driv.Text.{concat, split_char, replace_char, drop_parts, before_part}
use octavia_f5_provider_driv.HealthMessage.{PoolReport, ListenerReport, Health}

-- The numbers that are read from an entry of ltm/virtual/stats.
pub record VirtualStats : Type 0 where
  pub path : String
  pub bits_out : ℕ
  pub bits_in : ℕ
  pub cur_conns : ℕ
  pub tot_conns : ℕ
  pub slow_killed : ℕ

-- A member with its `description`, if it has one, and the statistics of a member.
pub record MemberItem : Type 0 where
  pub description : Option String
  pub full_path : String

pub record MemberStats : Type 0 where
  pub enabled_state : String
  pub monitor_status : String

-- An entry of ltm/pool/stats, with what the two requests for its members return.
pub record PoolStats : Type 0 where
  pub path : String
  pub availability_state : String
  pub items : List MemberItem
  pub self_link : String
  pub entries : Dict MemberStats

pub record ListenerStats : Type 0 where
  pub status : String
  pub tx : ℕ
  pub rx : ℕ
  pub conns : ℕ
  pub totconns : ℕ
  pub ereq : ℕ

-- `seq` is 0 and `ver` is 2 in each.
pub record Message : Type 0 where
  pub id : String
  pub listeners : Dict ListenerStats
  pub pools : Dict PoolReport

abbrev pub text_or_empty : Option String → String
text_or_empty none = ""
text_or_empty (some s) = s

-- `_listener_from_path`, `_pool_from_path`: the last part of the path, without the prefix.
pub listener_from_path : String → String
unfolding split_char drop_parts replace_char
listener_from_path path =
    replace_char "_" "-"
      (drop_parts "listener_" 0 (text_or_empty (get_last? (split_char "/" path))))

pub pool_from_path : String → String
unfolding split_char drop_parts replace_char
pool_from_path path =
    replace_char "_" "-" (drop_parts "pool_" 0 (text_or_empty (get_last? (split_char "/" path))))

pub third : List String → Option String
third (a ∷ b ∷ c ∷ _) = some c
third _ = none

-- `_loadbalancer_from_path`; `none` is IndexError.
pub loadbalancer_from_path : String → Option String
unfolding third split_char drop_parts replace_char
loadbalancer_from_path path = elim (third (split_char "/" path)) [
  | none ↦ none
  | some part ↦ some (replace_char "_" "-" (drop_parts "lb_" 0 part))
]

-- `_get_lb_msg`
abbrev pub message_of : String → Option Message → Message
message_of lb_id none = record { id = lb_id; listeners = []; pools = [] }
message_of lb_id (some m) = m

abbrev pub stats_of : VirtualStats → ListenerStats
stats_of v = record {
  status = "OPEN";
  tx = v.bits_out;
  rx = v.bits_in;
  conns = v.cur_conns;
  totconns = v.tot_conns;
  ereq = v.slow_killed;
}

abbrev pub put_listener : String → String → ListenerStats → Dict Message → Dict Message
put_listener lb_id l s ms =
    let m = message_of lb_id (lookup lb_id ms) in
    insert lb_id (record m { listeners = insert l s m.listeners }) ms

abbrev pub put_pool : String → String → PoolReport → Dict Message → Dict Message
put_pool lb_id p r ms =
    let m = message_of lb_id (lookup lb_id ms) in
    insert lb_id (record m { pools = insert p r m.pools }) ms

-- The rest of a loop, for the load balancer of a path.
abbrev pub routed : Option String → (String → Result (Dict Message)) → Result (Dict Message)
routed none f = err index_error
routed (some lb_id) f = f lb_id

-- The loop over the virtual servers.
pub add_virtuals : List VirtualStats → Dict Message → Result (Dict Message)
add_virtuals [] ms = ok ms
add_virtuals (v ∷ vs) ms =
    routed (loadbalancer_from_path v.path)
      (λ lb_id. add_virtuals vs (put_listener lb_id (listener_from_path v.path) (stats_of v) ms))

-- path.replace('%', '%25')
escape : String → String
escape String.[] = String.[]
escape (String.◌∷◌ c s) =
    String.◌∷◌ c (if eqb (code c) 37 then concat "25" (escape s) else escape s)

member_path : PoolStats → MemberItem → String
unfolding before_part replace_char
member_path p i =
    concat (before_part "/stats" p.self_link)
      (concat "/" (concat (replace_char "/" "~" i.full_path) "/stats"))

or_option : {A : Type 0} → Option A → Option A → Option A
or_option none o = o
or_option (some a) _ = some a

stats_entry : PoolStats → MemberItem → Option MemberStats
unfolding member_path escape or_option
stats_entry p i =
    or_option (lookup (member_path p i) p.entries) (lookup (escape (member_path p i)) p.entries)

pub member_status : MemberStats → String
member_status s =
    if s.enabled_state == "disabled"
    then "DRAIN"
    else if s.monitor_status == "checking"
    then "MAINT"
    else if s.monitor_status == "down"
    then "DOWN"
    else if s.monitor_status == "up"
    then "UP"
    else "no check"

-- One member: only with a description, which is its id, and statistics.
add_member : Option String → Option MemberStats → Dict String → Dict String
unfolding member_status
add_member (some id) (some s) ms = insert id (member_status s) ms
add_member _ _ ms = ms

add_members : PoolStats → List MemberItem → Dict String → Dict String
unfolding add_member stats_entry
add_members p [] ms = ms
add_members p (i ∷ is) ms = add_members p is (add_member i.description (stats_entry p i) ms)

pub pool_report : PoolStats → PoolReport
unfolding add_members
pool_report p = record {
  status = if p.availability_state == "offline" then "DOWN" else "UP";
  members = add_members p p.items [];
}

-- The loop over the pools.
pub add_pools : List PoolStats → Dict Message → Result (Dict Message)
add_pools [] ms = ok ms
add_pools (p ∷ ps) ms =
    routed (loadbalancer_from_path p.path)
      (λ lb_id. add_pools ps (put_pool lb_id (pool_from_path p.path) (pool_report p) ms))

-- The listener count that is stored, and the messages that are handed to the updaters; `none` is an
-- answer without entries.
pub heartbeat : Option (List VirtualStats) → List PoolStats → ℕ × Result (Dict Message)
unfolding add_virtuals add_pools loadbalancer_from_path listener_from_path pool_from_path
    pool_report
heartbeat none pools = (0, ok [])
heartbeat (some virtuals) pools =
    (length virtuals, and_then (add_virtuals virtuals []) (λ ms. add_pools pools ms))

-- A message as the health update reads it; it takes nothing but the status from the statistics.
pub as_health : ℕ → Message → Health
as_health now m = record {
  id = m.id;
  ver = some 2;
  recv_time = now;
  listeners = listeners_of m.listeners;
  pools = m.pools;
}
  where
    listeners_of : Dict ListenerStats → Dict ListenerReport
    listeners_of [] = []
    listeners_of ((l, s) ∷ ls) = (l, record { status = s.status; pools = [] }) ∷ listeners_of ls
