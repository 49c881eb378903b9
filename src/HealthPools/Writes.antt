-- ===== src/HealthPools/Writes.antt =====
-- What the reports of the pools write to the database.
use octavia_f5_provider_driv.Base.{
  String, Bool, true, false, ◌≡◌, refl, Option, none, some, List, [], ◌∷◌, ◌++◌, append-nil,
  append_assoc, arith, ◌==◌, Dict, lookup, insert, contains, any-append, Distinct, NoneOf,
  if◌then◌else◌, eq_iff,
}
use octavia_f5_provider_driv.Octavia.{OperatingStatus, online, degraded}
use octavia_f5_provider_driv.HealthMessage.{PoolReport, DbPool, Write, pool, member, update_if_new}
use octavia_f5_provider_driv.HealthPools.{
  member_status, is_down, degrade, Statuses, process_members, pool_statuses, Progress,
  process_reported, process_report, process_pool_status, process_pools,
}
use octavia_f5_provider_driv.HealthPools.LbStatus.{
  has_down_member, process_members-eq, process_report-NoneOf,
}

abbrev pub member_writes : Dict String → Dict OperatingStatus → List Write
member_writes reports [] = []
member_writes reports ((id, db) ∷ ms) =
    update_if_new member id (member_status (lookup id reports) db) db ++ member_writes reports ms

process_members-writes :
    (reports : Dict String) (ms : Dict OperatingStatus) (s : Statuses)
    → (process_members reports ms s).1 ≡ member_writes reports ms
unfolding process_members
process_members-writes reports [] s = refl
process_members-writes reports ((id, db) ∷ ms) s =
    rw (process_members-writes reports ms (degrade (is_down (lookup id reports)) s))

-- The status of a pool with a report.
abbrev pub reported_pool_status : DbPool → PoolReport → Option OperatingStatus
reported_pool_status db_pool r =
    if r.status == "UP"
    then some (if has_down_member r.members db_pool.members then degraded else online)
    else if r.status == "DOWN"
    then some OperatingStatus.error
    else none

abbrev pub report_writes : String → DbPool → Option PoolReport → List Write
report_writes id db_pool none = []
report_writes id db_pool (some r) =
    member_writes r.members db_pool.members
    ++ update_if_new pool id (reported_pool_status db_pool r) db_pool.operating_status

pool_status-eq :
    (db_pool : DbPool) (r : PoolReport) (lb : OperatingStatus)
    → (degrade (has_down_member r.members db_pool.members) (pool_statuses r.status lb)).pool_status
      ≡ reported_pool_status db_pool r
unfolding degrade pool_statuses
pool_status-eq db_pool r lb = ground arith

process_report-writes :
    (id : String) (db_pool : DbPool) (o : Option PoolReport) (p : Progress)
    → (process_report id db_pool o p).1 ≡ report_writes id db_pool o
unfolding process_report process_reported
process_report-writes id db_pool none p = refl
process_report-writes id db_pool (some r) p =
    let s = pool_statuses r.status p.lb_status in
    rw (
      process_members-writes r.members db_pool.members s,
      process_members-eq r.members db_pool.members s,
      pool_status-eq db_pool r p.lb_status,
    )

abbrev pub reported_writes : Dict PoolReport → Dict DbPool → List Write
reported_writes pools [] = []
reported_writes pools ((id, db_pool) ∷ ps) =
    report_writes id db_pool (lookup id pools) ++ reported_writes pools ps

pub process_pools-writes :
    (pools : Dict PoolReport) (ps : Dict DbPool) (p : Progress)
    → Distinct ps
    → NoneOf p.processed_pools ps
    → (process_pools pools ps p).1 ≡ reported_writes pools ps
unfolding process_pools process_pool_status
process_pools-writes pools [] p d h = refl
process_pools-writes pools ((id, db_pool) ∷ ps) p d h =
    let o = lookup id pools in
    rw (
      h.0,
      process_report-writes id db_pool o p,
      process_pools-writes pools ps (process_report id db_pool o p).0 d.1
          (process_report-NoneOf id db_pool o p ps d.0 h.1),
    )

-- The pools of the database that have no report, with their statuses.
abbrev pub is_reported : Option PoolReport → Bool
is_reported none = false
is_reported (some _) = true

abbrev pub unreported : Dict PoolReport → Dict DbPool → Dict OperatingStatus
unreported pools [] = []
unreported pools ((id, db_pool) ∷ ps) =
    (if is_reported (lookup id pools) then [] else (id, db_pool.operating_status) ∷ [])
    ++ unreported pools ps

-- No pool that is still to come is in the dict of potential offline pools.
abbrev pub Absent : Dict OperatingStatus → Dict DbPool → Type 0
Absent m [] = Unit
Absent m ((id, _) ∷ ps) = (contains id m ≡ false) × Absent m ps

insert_new :
    (id : String) (s : OperatingStatus) (m : Dict OperatingStatus)
    → contains id m ≡ false
    → insert id s m ≡ m ++ (id, s) ∷ []
insert_new id s [] h = refl
insert_new id s ((j, t) ∷ m) h = ground (arith, insert_new id s m)

Absent-insert :
    (id : String) (s : OperatingStatus) (m : Dict OperatingStatus) (ps : Dict DbPool)
    → contains id ps ≡ false
    → Absent m ps
    → Absent (m ++ (id, s) ∷ []) ps
Absent-insert id s m [] d h = tt
Absent-insert id s m ((j, p) ∷ ps) d h = (
  rw (any-append m ((id, s) ∷ []) (λ e. e.0 == j), h.0) (ground (arith, eq_iff id j, eq_iff j id)),
  Absent-insert id s m ps (ground arith) h.1,
)

-- The two ways in which a pool passes through the loop.
report_potential :
    (id : String) (db_pool : DbPool) (o : Option PoolReport) (p : Progress) (ps : Dict DbPool)
    → contains id p.potential_offline_pools ≡ false
    → contains id ps ≡ false
    → Absent p.potential_offline_pools ps
    → ((process_report id db_pool o p).0.potential_offline_pools
        ≡ p.potential_offline_pools
          ++ (if is_reported o then [] else (id, db_pool.operating_status) ∷ []))
      × Absent (process_report id db_pool o p).0.potential_offline_pools ps
unfolding process_report process_reported
report_potential id db_pool none p ps new d h =
    let e = insert_new id db_pool.operating_status p.potential_offline_pools new in
    (e, rw e (Absent-insert id db_pool.operating_status p.potential_offline_pools ps d h))
report_potential id db_pool (some r) p ps new d h = (rw append-nil refl, h)

pub process_pools-potential :
    (pools : Dict PoolReport) (ps : Dict DbPool) (p : Progress)
    → Distinct ps
    → NoneOf p.processed_pools ps
    → Absent p.potential_offline_pools ps
    → (process_pools pools ps p).0.potential_offline_pools
      ≡ p.potential_offline_pools ++ unreported pools ps
unfolding process_pools process_pool_status
process_pools-potential pools [] p d h a = rw append-nil
process_pools-potential pools ((id, db_pool) ∷ ps) p d h a =
    let o = lookup id pools in
    let (e, a') = report_potential id db_pool o p ps a.0 d.0 a.1 in
    rw
      (
        h.0,
        process_pools-potential pools ps (process_report id db_pool o p).0 d.1
            (process_report-NoneOf id db_pool o p ps d.0 h.1) a',
        e,
      )
      (append_assoc p.potential_offline_pools _ _)
