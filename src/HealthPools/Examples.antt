-- ===== src/HealthPools/Examples.antt =====
-- Two pools, of which one is reported with a member that is down.
use octavia_f5_provider_driv.Base.{[], ◌∷◌, Dict}
use octavia_f5_provider_driv.Octavia.{online}
use octavia_f5_provider_driv.HealthMessage.{PoolReport, DbPool}

abbrev pub reports : Dict PoolReport
reports = ("p1", record { status = "UP"; members = ("a", "UP") ∷ ("b", "DOWN 1/2") ∷ [] }) ∷ []

abbrev pub pools : Dict DbPool
pools =
    ("p1", record { operating_status = online; members = ("a", online) ∷ ("b", online) ∷ [] })
    ∷ ("p2", record { operating_status = online; members = [] })
    ∷ []
