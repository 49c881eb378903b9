-- ===== src/HealthPools/LbStatus.antt =====
-- How the reports of the pools change the status of the load balancer.
use octavia_f5_provider_driv.Base.{
  String, Bool, false, ◌&&◌, ◌||◌, ◌≡◌, refl, Option, none, some, [], ◌∷◌, arith, ◌==◌, Dict,
  lookup, contains, any, Distinct, NoneOf, NoneOf-cons, if◌then◌else◌, eq_iff,
}
use octavia_f5_provider_driv.Octavia.{OperatingStatus}
use octavia_f5_provider_driv.HealthMessage.{PoolReport, DbPool}
use octavia_f5_provider_driv.HealthPools.{
  is_down, degrade, degrade_lb, Statuses, process_members, pool_statuses, Progress,
  process_reported, process_report, process_pool_status, process_pools,
}

-- Some member of the pool in the database is reported as down.
abbrev pub has_down_member : Dict String → Dict OperatingStatus → Bool
has_down_member reports ms = any ms (λ m. is_down (lookup m.0 reports))

pub process_members-eq :
    (reports : Dict String) (ms : Dict OperatingStatus) (s : Statuses)
    → (process_members reports ms s).0 ≡ degrade (has_down_member reports ms) s
unfolding process_members degrade
process_members-eq reports [] s = refl
process_members-eq reports ((id, db) ∷ ms) s =
    ground (arith, process_members-eq reports ms (degrade (is_down (lookup id reports)) s))

-- A pool fails the load balancer if it is reported as DOWN, and degrades it if it is reported as UP
-- with a member that is down.
abbrev pub fails : Option PoolReport → Bool
fails none = false
fails (some r) = r.status == "DOWN"

abbrev pub degrades : DbPool → Option PoolReport → Bool
degrades db_pool none = false
degrades db_pool (some r) = r.status == "UP" && has_down_member r.members db_pool.members

abbrev pub worst : Bool → Bool → OperatingStatus → OperatingStatus
worst failing degrading lb_status =
    if failing then OperatingStatus.error else if degrading then degrade_lb lb_status else lb_status

degrade-pool_statuses :
    (status : String) (lb : OperatingStatus) (down : Bool)
    → (degrade down (pool_statuses status lb)).lb_status
      ≡ worst (status == "DOWN") (status == "UP" && down) lb
unfolding degrade pool_statuses
degrade-pool_statuses status lb down =
    ground (arith, eq_iff status "UP", eq_iff status "DOWN", eq_iff "UP" "DOWN")

process_report-lb_status :
    (id : String) (db_pool : DbPool) (o : Option PoolReport) (p : Progress)
    → (process_report id db_pool o p).0.lb_status ≡ worst (fails o) (degrades db_pool o) p.lb_status
unfolding process_report process_reported
process_report-lb_status id db_pool none p = refl
process_report-lb_status id db_pool (some r) p =
    rw (process_members-eq r.members db_pool.members (pool_statuses r.status p.lb_status))
      (degrade-pool_statuses r.status p.lb_status (has_down_member r.members db_pool.members))

worst_twice :
    (f g f' g' : Bool) (lb : OperatingStatus)
    → worst f' g' (worst f g lb) ≡ worst (f || f') (g || g') lb
worst_twice f g f' g' lb = ground arith

-- Whatever is processed now is none of the pools that are still to come.
pub process_report-NoneOf :
    (id : String) (db_pool : DbPool) (o : Option PoolReport) (p : Progress) (ps : Dict DbPool)
    → contains id ps ≡ false
    → NoneOf p.processed_pools ps
    → NoneOf (process_report id db_pool o p).0.processed_pools ps
unfolding process_report process_reported
process_report-NoneOf id db_pool none p ps absent h = h
process_report-NoneOf id db_pool (some r) p ps absent h =
    NoneOf-cons id p.processed_pools ps absent h

abbrev pub some_pool_fails : Dict PoolReport → Dict DbPool → Bool
some_pool_fails pools ps = any ps (λ p. fails (lookup p.0 pools))

abbrev pub some_pool_degrades : Dict PoolReport → Dict DbPool → Bool
some_pool_degrades pools ps = any ps (λ p. degrades p.1 (lookup p.0 pools))

-- After the loop over all pools the load balancer is in ERROR if one of its pools is reported as
-- DOWN. Otherwise an ONLINE load balancer is DEGRADED if one of its pools is reported as UP with a
-- member that is down, and in every other case its status stays.
pub process_pools-lb_status :
    (pools : Dict PoolReport) (ps : Dict DbPool) (p : Progress)
    → Distinct ps
    → NoneOf p.processed_pools ps
    → (process_pools pools ps p).0.lb_status
      ≡ worst (some_pool_fails pools ps) (some_pool_degrades pools ps) p.lb_status
unfolding process_pools process_pool_status
process_pools-lb_status pools [] p d h = refl
process_pools-lb_status pools ((id, db_pool) ∷ ps) p d h =
    let o = lookup id pools in
    let p' = (process_report id db_pool o p).0 in
    rw
      (
        h.0,
        process_pools-lb_status pools ps p' d.1 (process_report-NoneOf id db_pool o p ps d.0 h.1),
        process_report-lb_status id db_pool o p,
      )
      (worst_twice (fails o) (degrades db_pool o) (some_pool_fails pools ps)
        (some_pool_degrades pools ps) p.lb_status)
