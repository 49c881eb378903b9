-- ===== src/HealthPools.antt =====
-- `_process_pool_status` of update_db.py, and the loop over the pools of a load balancer.
pub mod LbStatus
mod Examples
pub mod Writes
pub mod Offline
use octavia_f5_provider_driv.Base.{
  String, Bool, true, false, ◌&&◌, not, Option, none, some, List, [], ◌∷◌, ◌++◌, ◌==◌, Dict, lookup,
  insert, mem, if◌then◌else◌,
}
use text.Mathlib.Text.{starts_with}
use octavia_f5_provider_driv.Octavia.{
  OperatingStatus, online, offline, degraded, draining, no_monitor,
}
use octavia_f5_provider_driv.HealthMessage.{
  PoolReport, DbPool, Write, pool, member, op_eq, update_if_new,
}

-- The ladder on a member's reported status.
pub reported_member_status : String → Option OperatingStatus
reported_member_status status =
    if starts_with status "UP"
    then some online
    else if starts_with status "DOWN"
    then some OperatingStatus.error
    else if status == "DRAIN"
    then some draining
    else if status == "MAINT"
    then some offline
    else if status == "no check"
    then some no_monitor
    else none

-- The new status of a member, given its report and its status in the database.
pub member_status : Option String → OperatingStatus → Option OperatingStatus
member_status none db_status = if op_eq db_status no_monitor then none else some offline
member_status (some status) db_status = reported_member_status status

-- The branch of the ladder that also degrades the pool and the load balancer.
abbrev pub is_down : Option String → Bool
is_down none = false
is_down (some status) = not (starts_with status "UP") && starts_with status "DOWN"

abbrev pub degrade_pool : Option OperatingStatus → Option OperatingStatus
degrade_pool (some online) = some degraded
degrade_pool s = s

abbrev pub degrade_lb : OperatingStatus → OperatingStatus
degrade_lb online = degraded
degrade_lb s = s

abbrev pub is_online : Option OperatingStatus → Bool
is_online (some online) = true
is_online _ = false

-- What the loops carry: the statuses of the pool and the load balancer, and the writes so far.
pub record Statuses : Type 0 where
  pub pool_status : Option OperatingStatus
  pub lb_status : OperatingStatus

pub degrade : Bool → Statuses → Statuses
degrade down s =
    if down && is_online s.pool_status
    then record { pool_status = degrade_pool s.pool_status; lb_status = degrade_lb s.lb_status }
    else s

-- The loop over the members of the pool in the database.
pub process_members : Dict String → Dict OperatingStatus → Statuses → Statuses × List Write
process_members reports [] s = (s, [])
process_members reports ((id, db_status) ∷ ms) s =
    let report = lookup id reports in
    let (s', writes) = process_members reports ms (degrade (is_down report) s) in
    (s', update_if_new member id (member_status report db_status) db_status ++ writes)

-- The ladder on the reported status of the pool.
pub pool_statuses : String → OperatingStatus → Statuses
pool_statuses status lb_status =
    if status == "UP"
    then record { pool_status = some online; lb_status = lb_status }
    else if status == "DOWN"
    then record { pool_status = some OperatingStatus.error; lb_status = OperatingStatus.error }
    else record { pool_status = none; lb_status = lb_status }

pub record Progress : Type 0 where
  pub lb_status : OperatingStatus
  pub processed_pools : List String
  pub potential_offline_pools : Dict OperatingStatus

pub process_reported : String → DbPool → PoolReport → Progress → Progress × List Write
process_reported id db_pool report p =
    let (s, writes) =
      process_members report.members db_pool.members (pool_statuses report.status p.lb_status) in
    (
      record p { lb_status = s.lb_status; processed_pools = id ∷ p.processed_pools },
      writes ++ update_if_new pool id s.pool_status db_pool.operating_status,
    )

-- A pool without a report may turn out to be offline.
pub process_report : String → DbPool → Option PoolReport → Progress → Progress × List Write
process_report id db_pool none p = (
  record p {
    potential_offline_pools = insert id db_pool.operating_status p.potential_offline_pools;
  },
  [],
)
process_report id db_pool (some report) p = process_reported id db_pool report p

-- `_process_pool_status`
pub process_pool_status : String → DbPool → Dict PoolReport → Progress → Progress × List Write
process_pool_status id db_pool pools p = process_report id db_pool (lookup id pools) p

-- The loop over the pools in the database, which skips those that were processed before.
pub process_pools : Dict PoolReport → Dict DbPool → Progress → Progress × List Write
process_pools pools [] p = (p, [])
process_pools pools ((id, db_pool) ∷ ps) p =
    let (p', writes) =
      (if mem id p.processed_pools then (p, []) else process_pool_status id db_pool pools p) in
    let (p'', rest) = process_pools pools ps p' in (p'', writes ++ rest)

-- The loop over `potential_offline_pools`, after all reports.
pub offline_writes : Dict OperatingStatus → List String → List Write
offline_writes [] processed = []
offline_writes ((id, db_status) ∷ ps) processed =
    (if mem id processed then [] else update_if_new pool id (some offline) db_status)
    ++ offline_writes ps processed
