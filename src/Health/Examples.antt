-- ===== src/Health/Examples.antt =====
-- A heartbeat of version 2.
use octavia_f5_provider_driv.Base.{arith, ◌≡◌, ◌++◌, [], ◌∷◌, refl, true, false, none, some}
use octavia_f5_provider_driv.Octavia.{online, active}
use octavia_f5_provider_driv.HealthMessage.{Health, DbLb, loadbalancer, update_if_new}
use octavia_f5_provider_driv.HealthPools.Writes.{reported_writes, unreported}
use octavia_f5_provider_driv.HealthPools.Offline.{write_offline}
use octavia_f5_provider_driv.Health.{World, status_writes}
use octavia_f5_provider_driv.Health.Version2.{
  listener_writes, pool_reports, final_lb_status, status_writes-version2,
}

abbrev beat : Health
beat = record {
  id = "lb1";
  ver = some 2;
  recv_time = 100;
  listeners = ("l1", record { status = "OPEN"; pools = [] }) ∷ [];
  pools = ("p1:l1", record { status = "UP"; members = ("a", "UP") ∷ ("b", "DOWN") ∷ [] }) ∷ [];
}

abbrev lb : DbLb
lb = record {
  id = "lb1";
  provisioning_status = active;
  enabled = true;
  operating_status = online;
  listeners = ("l1", record { enabled = true; is_udp = false; operating_status = online }) ∷ [];
  pools =
      ("p1", record { operating_status = online; members = ("a", online) ∷ ("b", online) ∷ [] })
      ∷ ("p2", record { operating_status = online; members = [] })
      ∷ [];
}

abbrev world : World
world = record {
  now = 101;
  heartbeat_interval = 3;
  replace_succeeds = true;
  amphora = none;
  compute_delete_succeeds = true;
  default_pool = λ _. none;
}

status_writes-version2_example :
    status_writes beat lb
    ≡ listener_writes lb beat.listeners lb.listeners
      ++ (reported_writes (pool_reports beat) lb.pools
          ++ (write_offline (unreported (pool_reports beat) lb.pools)
              ++ update_if_new loadbalancer lb.id
                  (some (final_lb_status beat lb))
                  lb.operating_status))
status_writes-version2_example = status_writes-version2 beat lb (omega arith) (refl, (refl, tt))
