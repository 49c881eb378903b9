-- ===== src/Health/Version2.antt =====
-- The heartbeats of version 2, which are those that the driver's own status manager sends.
use octavia_f5_provider_driv.Base.{
  ℕ, ◌≤◌, Bool, true, ◌≡◌, refl, Option, none, some, List, [], ◌∷◌, ◌++◌, append_assoc, arith, Dict,
  lookup, any, Distinct, leb, NoneOf-nil, if◌then◌else◌,
}
use octavia_f5_provider_driv.Octavia.{OperatingStatus, online, offline}
use octavia_f5_provider_driv.HealthMessage.{
  PoolReport, ListenerReport, Health, DbListener, DbLb, Write, loadbalancer, listener,
  update_if_new,
}
use octavia_f5_provider_driv.HealthPools.{degrade_lb, Progress, process_pools, offline_writes}
use octavia_f5_provider_driv.HealthPools.LbStatus.{
  some_pool_fails, some_pool_degrades, worst, process_pools-lb_status,
}
use octavia_f5_provider_driv.HealthPools.Writes.{reported_writes, unreported}
use octavia_f5_provider_driv.HealthPools.Offline.{write_offline, process_pools-all_writes}
use octavia_f5_provider_driv.Health.{
  normalise, listener_status, is_full, listener_pools, process_listeners, version_of, initial,
  status_writes,
}

abbrev pub some_listener_full : Dict ListenerReport → Dict DbListener → Bool
some_listener_full reports ls = any ls (λ l. is_full (lookup l.0 reports))

abbrev pub listener_writes : DbLb → Dict ListenerReport → Dict DbListener → List Write
listener_writes lb reports [] = []
listener_writes lb reports ((id, db) ∷ ls) =
    update_if_new listener id (listener_status lb db (lookup id reports)) db.operating_status
    ++ listener_writes lb reports ls

abbrev with_status : Progress → OperatingStatus → Progress
with_status p s = record p { lb_status = s }

abbrev after_listeners : Bool → Progress → Progress
after_listeners full p = record p {
  lb_status = if full then degrade_lb p.lb_status else p.lb_status;
}

listener_pools-version2 :
    (version : ℕ) (lb : DbLb) (r : Option ListenerReport) (p : Progress)
    → 2 ≤ version
    → listener_pools version lb.pools r p ≡ (p, [])
unfolding listener_pools
listener_pools-version2 version lb none p h = refl
listener_pools-version2 version lb (some r) p h = ground arith

process_listeners-version2 :
    (lb : DbLb) (version : ℕ) (reports : Dict ListenerReport) (ls : Dict DbListener) (p : Progress)
    → 2 ≤ version
    → process_listeners lb version reports ls p
      ≡ (after_listeners (some_listener_full reports ls) p, listener_writes lb reports ls)
unfolding process_listeners
process_listeners-version2 lb version reports [] p h = refl
process_listeners-version2 lb version reports ((id, db) ∷ ls) p h =
    let r = lookup id reports in
    let p' = after_listeners (is_full r) p in
    rw
      (
        listener_pools-version2 version lb r p' h,
        process_listeners-version2 lb version reports ls p' h,
      )
      (ground arith)

-- The reports of the pools are read by their normalised keys.
abbrev pub pool_reports : Health → Dict PoolReport
pool_reports health = normalise health.pools

abbrev pub final_lb_status : Health → DbLb → OperatingStatus
final_lb_status health lb =
    let start_status = if lb.enabled then online else offline in
    let full = some_listener_full health.listeners lb.listeners in
    worst (some_pool_fails (pool_reports health) lb.pools)
      (some_pool_degrades (pool_reports health) lb.pools)
      (if full then degrade_lb start_status else start_status)

-- A heartbeat of version 2 or later writes, in this order: the changed statuses of the listeners in
-- the database; the changed statuses of the reported pools and of their members; OFFLINE for the
-- pools that have no report; and the status of the load balancer if it changes. That status is
-- ERROR if a pool is reported as DOWN, and otherwise ONLINE (OFFLINE if the load balancer is
-- disabled), where ONLINE turns to DEGRADED if a listener is full or a pool that is up has a member
-- that is down. No pool stands twice in the database.
pub status_writes-version2 :
    (health : Health) (lb : DbLb)
    → 2 ≤ version_of health
    → Distinct lb.pools
    → status_writes health lb
      ≡ listener_writes lb health.listeners lb.listeners
        ++ (reported_writes (pool_reports health) lb.pools
            ++ (write_offline (unreported (pool_reports health) lb.pools)
                ++ update_if_new loadbalancer lb.id
                    (some (final_lb_status health lb))
                    lb.operating_status))
unfolding status_writes
status_writes-version2 health lb h d =
    let full = some_listener_full health.listeners lb.listeners in
    let p = after_listeners full (initial lb) in
    let pools = pool_reports health in
    let lb_status = process_pools-lb_status pools lb.pools p d (NoneOf-nil lb.pools) in
    let writes = process_pools-all_writes pools lb.pools p.lb_status d in
    let last_write =
      update_if_new loadbalancer lb.id (some (final_lb_status health lb)) lb.operating_status in
    let present : leb 2 (version_of health) ≡ true = ground arith in
    rw
      (
        process_listeners-version2 lb (version_of health) health.listeners lb.listeners (initial lb)
            h,
        present,
        lb_status,
      )
      (cc (
        writes,
        append_assoc (process_pools pools lb.pools p).1
            (offline_writes (process_pools pools lb.pools p).0.potential_offline_pools
              (process_pools pools lb.pools p).0.processed_pools)
            last_write,
        append_assoc (reported_writes pools lb.pools) (write_offline (unreported pools lb.pools))
            last_write,
      ))
