-- ===== src/Health.antt =====
-- `UpdateHealthDb._update_health` of update_db.py: a heartbeat is checked against the load balancer
-- in the database, and its statuses are written.
pub mod PoolKeys
pub mod Version2
mod Examples
use Prim.Native.Char.{Char, code}
use octavia_f5_provider_driv.Base.{
  ℕ, zero, suc, ◌+◌, String, Bool, true, false, ◌&&◌, ◌||◌, not, Option, none, some, List, [], ◌∷◌,
  ◌++◌, map, ◌==◌, eqb, leb, ltb, Dict, lookup, insert, length, any, if◌then◌else◌,
}
use octavia_f5_provider_driv.Octavia.{
  ProvisioningStatus, OperatingStatus, online, offline, degraded, is_pending,
}
use octavia_f5_provider_driv.HealthMessage.{
  PoolReport, ListenerReport, Health, DbListener, DbPool, DbLb, Write, loadbalancer, listener,
  update_if_new,
}
use octavia_f5_provider_driv.HealthPools.{degrade_lb, Progress, process_pools, offline_writes}

-- What stands before the last place of a character.
before_last : Char → String → Option String
before_last c String.[] = none
before_last c (String.◌∷◌ d s) = elim (before_last c s) [
  | some p ↦ some (String.◌∷◌ d p)
  | none ↦ if eqb (code d) (code c) then some String.[] else none
]

-- (k + ' ')[:k.rfind(':')]: all of k if there is no colon.
pub pool_id_of : String → String
unfolding before_last
pool_id_of k = elim (before_last ":" k) [ none ↦ k | some p ↦ p ]

-- The dict comprehension that normalises the keys; a later entry replaces an earlier one.
normalise_onto : Dict PoolReport → Dict PoolReport → Dict PoolReport
normalise_onto m [] = m
normalise_onto m ((k, v) ∷ raw) = normalise_onto (insert (pool_id_of k) v m) raw

pub normalise : Dict PoolReport → Dict PoolReport
unfolding normalise_onto
normalise = normalise_onto []

pub record Amphora : Type 0 where
  pub compute_id : String
  pub load_balancer_id : Option String

-- What the heartbeat's handler asks of the outside. `default_pool` gives, for a listener, whether
-- each member of its default pool is enabled.
pub record World : Type 0 where
  pub now : ℕ
  pub heartbeat_interval : ℕ
  pub replace_succeeds : Bool
  pub amphora : Option Amphora
  pub compute_delete_succeeds : Bool
  pub default_pool : String → Option (List Bool)

pub data Event : Type 0 where
  delete_compute : (compute_id : String) → Event
  replace_health : (amphora_id : String) → Event
  rollback : Event
  write : Write → Event

abbrev enabled_listeners : Dict DbListener → ℕ
enabled_listeners [] = 0
enabled_listeners ((_, l) ∷ ls) =
    if l.enabled then suc (enabled_listeners ls) else enabled_listeners ls

-- `need_remove`: the default pool is missing, or has no enabled member.
abbrev no_enabled_member : Option (List Bool) → Bool
no_enabled_member none = true
no_enabled_member (some flags) = not (any flags (λ b. b))

-- What `_update_listener_count_for_UDP` subtracts.
udp_removed : (String → Option (List Bool)) → Dict DbListener → ℕ
udp_removed default_pool [] = 0
udp_removed default_pool ((id, l) ∷ ls) =
    if l.is_udp && no_enabled_member (default_pool id)
    then suc (udp_removed default_pool ls)
    else udp_removed default_pool ls

-- The expected number of listeners: `count - removed`, which may be negative.
pub record Expected : Type 0 where
  pub count : ℕ
  pub removed : ℕ
  pub ignored : Bool

abbrev is_absent : Option ℕ → Bool
is_absent none = true
is_absent (some _) = false

pub expected_listeners : World → Health → DbLb → Expected
unfolding udp_removed
expected_listeners w health lb =
    if is_pending lb.provisioning_status || not lb.enabled
    then record { count = 0; removed = 0; ignored = true }
    else record {
      count = enabled_listeners lb.listeners;
      removed = if is_absent health.ver then udp_removed w.default_pool lb.listeners else 0;
      ignored = false;
    }

-- `len(listeners) == expected_listener_count or ignore_listener_count`
pub counts_match : Health → Expected → Bool
counts_match health e = eqb (length health.listeners + e.removed) e.count || e.ignored

-- `proc_delay >= hb_interval`
pub is_late : World → Health → Bool
is_late w health = leb (health.recv_time + w.heartbeat_interval) w.now

-- The status of a listener, and that of the load balancer after it.
pub listener_status : DbLb → DbListener → Option ListenerReport → Option OperatingStatus
listener_status lb db none = elim lb.provisioning_status [
  | ProvisioningStatus.active ↦ some (if db.enabled then OperatingStatus.error else offline)
  | _ ↦ some offline
]
listener_status lb db (some r) =
    if r.status == "OPEN" then some online else if r.status == "FULL" then some degraded else none

abbrev pub is_full : Option ListenerReport → Bool
is_full none = false
is_full (some r) = not (r.status == "OPEN") && r.status == "FULL"

-- The pools that came with a listener, before version 2.
listener_pools : ℕ → Dict DbPool → Option ListenerReport → Progress → Progress × List Write
listener_pools version pools none p = (p, [])
listener_pools version pools (some r) p =
    if ltb version 2 then process_pools (normalise r.pools) pools p else (p, [])

-- The loop over the listeners in the database.
pub process_listeners :
    DbLb → ℕ → Dict ListenerReport → Dict DbListener → Progress → Progress × List Write
unfolding listener_pools
process_listeners lb version reports [] p = (p, [])
process_listeners lb version reports ((id, db) ∷ ls) p =
    let r = lookup id reports in
    let own = update_if_new listener id (listener_status lb db r) db.operating_status in
    let p1 : Progress = record p {
      lb_status = if is_full r then degrade_lb p.lb_status else p.lb_status;
    } in
    let (p2, pool_writes) = listener_pools version lb.pools r p1 in
    let (p3, rest) = process_listeners lb version reports ls p2 in
    (p3, own ++ (pool_writes ++ rest))

-- health.get('ver', 0)
abbrev pub version_of : Health → ℕ
version_of health = elim health.ver [ none ↦ 0 | some v ↦ v ]

abbrev pub initial : DbLb → Progress
initial lb = record {
  lb_status = if lb.enabled then online else offline;
  processed_pools = [];
  potential_offline_pools = [];
}

-- The part of `_update_health` that writes statuses.
pub status_writes : Health → DbLb → List Write
status_writes health lb =
    let version = version_of health in
    let (p1, first) = process_listeners lb version health.listeners lb.listeners (initial lb) in
    let (p2, second) =
      (if leb 2 version then process_pools (normalise health.pools) lb.pools p1 else (p1, [])) in
    first
    ++ (second
        ++ (offline_writes p2.potential_offline_pools p2.processed_pools
            ++ update_if_new loadbalancer lb.id (some p2.lb_status) lb.operating_status))

-- The check of the delay and the update of the amphora's health; false if the handler ends here.
pub record_heartbeat : World → Health → List Event × Bool
record_heartbeat w health =
    if is_late w health
    then ([], false)
    else if w.replace_succeeds
    then (replace_health health.id ∷ [], true)
    else (rollback ∷ [], false)

pub check_heartbeat : World → Health → Expected → List Event × Bool
check_heartbeat w health e = if counts_match health e then record_heartbeat w health else ([], true)

-- A heartbeat from an amphora that has no load balancer.
no_load_balancer : World → Health → List Event
no_load_balancer w health =
    let spare = (check_heartbeat w health (record { count = 0; removed = 0; ignored = false })).0 in
    elim w.amphora [
      | none ↦ []
      | some amp ↦ elim amp.load_balancer_id [
        | none ↦ spare
        | some _ ↦ if w.compute_delete_succeeds then delete_compute amp.compute_id ∷ [] else spare
      ]
    ]

-- `_update_health`, for what `get_lb_for_health_update` returns.
pub update_health : World → Health → Option DbLb → List Event
unfolding no_load_balancer
update_health w health none = no_load_balancer w health
update_health w health (some lb) =
    let (events, goes_on) = check_heartbeat w health (expected_listeners w health lb) in
    if goes_on then events ++ map write (status_writes health lb) else events
