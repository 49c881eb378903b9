-- ===== src/HealthPools/Offline.antt =====
-- Which pools are written as OFFLINE, and all writes for the pools of a load balancer.
use octavia_f5_provider_driv.Base.{
  String, false, ◌≡◌, refl, Option, none, some, List, [], ◌∷◌, ◌++◌, arith, ◌==◌, Dict, lookup, mem,
  Distinct, NoneOf-nil, Bool-cases, inl, inr, eq_iff,
}
use octavia_f5_provider_driv.Octavia.{OperatingStatus, offline}
use octavia_f5_provider_driv.HealthMessage.{PoolReport, DbPool, Write, pool, update_if_new}
use octavia_f5_provider_driv.HealthPools.{
  Progress, process_reported, process_report, process_pool_status, process_pools, offline_writes,
}
use octavia_f5_provider_driv.HealthPools.Writes.{
  is_reported, unreported, reported_writes, process_pools-writes, process_pools-potential, Absent,
}

-- A pool without a report is never among the processed ones.
NotProcessed : Dict PoolReport → Progress → Type 0
NotProcessed pools p =
    (j : String) → is_reported (lookup j pools) ≡ false → mem j p.processed_pools ≡ false

report-NotProcessed :
    (pools : Dict PoolReport) (id : String) (db_pool : DbPool) (o : Option PoolReport)
    (p : Progress)
    → lookup id pools ≡ o
    → NotProcessed pools p
    → NotProcessed pools (process_report id db_pool o p).0
unfolding NotProcessed process_report process_reported
report-NotProcessed pools id db_pool none p e h = h
report-NotProcessed pools id db_pool (some r) p e h = λ j u. elim (Bool-cases (id == j)) [
  | inl same ↦ absurd (clash j u ((eq_iff id j).0 same))
  | inr other ↦ rw other (h j u)
]
  where
    clash : (j : String) → is_reported (lookup j pools) ≡ false → id ≡ j → ⊥
    clash j u same = ground (arith)

process_pools-NotProcessed :
    (pools : Dict PoolReport) (ps : Dict DbPool) (p : Progress)
    → NotProcessed pools p
    → NotProcessed pools (process_pools pools ps p).0
unfolding process_pools process_pool_status
process_pools-NotProcessed pools [] p h = h
process_pools-NotProcessed pools ((id, db_pool) ∷ ps) p h =
    elim (Bool-cases (mem id p.processed_pools)) [
      | inl old ↦ rw old (process_pools-NotProcessed pools ps p h)
      | inr new ↦ rw new (
          process_pools-NotProcessed pools ps (process_report id db_pool (lookup id pools) p).0
            (report-NotProcessed pools id db_pool (lookup id pools) p refl h))
    ]

abbrev pub write_offline : Dict OperatingStatus → List Write
write_offline [] = []
write_offline ((id, db) ∷ m) = update_if_new pool id (some offline) db ++ write_offline m

offline_writes-unreported :
    (pools : Dict PoolReport) (ps : Dict DbPool) (p : Progress)
    → NotProcessed pools p
    → offline_writes (unreported pools ps) p.processed_pools ≡ write_offline (unreported pools ps)
unfolding offline_writes NotProcessed
offline_writes-unreported pools [] p h = refl
offline_writes-unreported pools ((id, db_pool) ∷ ps) p h =
    elim (Bool-cases (is_reported (lookup id pools))) [
      | inl yes_it_is ↦ rw yes_it_is (offline_writes-unreported pools ps p h)
      | inr missing ↦ rw (missing, h id missing, offline_writes-unreported pools ps p h)
    ]

Absent-nil : (ps : Dict DbPool) → Absent [] ps
Absent-nil [] = tt
Absent-nil (e ∷ ps) = (refl, Absent-nil ps)

abbrev pub start : OperatingStatus → Progress
start lb_status = record {
  lb_status = lb_status;
  processed_pools = [];
  potential_offline_pools = [];
}

-- From a message of version 2, the two loops over the pools write, for each pool of the load
-- balancer in the order of the database, the new statuses of its members and of the pool itself
-- where they are reported and differ from the database. Then they write OFFLINE for exactly the
-- pools that have no report and are not OFFLINE yet.
pub process_pools-all_writes :
    (pools : Dict PoolReport) (ps : Dict DbPool) (lb_status : OperatingStatus)
    → Distinct ps
    → ((process_pools pools ps (start lb_status)).1
        ++ offline_writes
            (process_pools pools ps (start lb_status)).0.potential_offline_pools
            (process_pools pools ps (start lb_status)).0.processed_pools)
      ≡ reported_writes pools ps ++ write_offline (unreported pools ps)
process_pools-all_writes pools ps lb_status d =
    let p = start lb_status in
    rw (
      process_pools-writes pools ps p d (NoneOf-nil ps),
      process_pools-potential pools ps p d (NoneOf-nil ps) (Absent-nil ps),
      offline_writes-unreported pools ps (process_pools pools ps p).0
          (process_pools-NotProcessed pools ps p (unfold NotProcessed in λ j u. refl)),
    )
