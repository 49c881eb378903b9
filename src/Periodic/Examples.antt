-- ===== src/Periodic/Examples.antt =====
-- One load balancer of each pending status.
use octavia_f5_provider_driv.Base.{
  true, List, String, ◌≡◌, ◌++◌, refl, none, some, any, mem, [], ◌∷◌, ◌==◌,
}
use octavia_f5_provider_driv.Octavia.{LoadBalancer, pending_update}
use octavia_f5_provider_driv.Samples.{lb_new, lb_gone}
use octavia_f5_provider_driv.Names.{tenant_name}
use octavia_f5_provider_driv.Handlers.{World}
use octavia_f5_provider_driv.Handlers.Retries.{Queues}
use octavia_f5_provider_driv.Periodic.{
  Pending, networks, pending_sync, network_id_of, BootingDevice, full_sync_reappearing_devices,
}
use octavia_f5_provider_driv.Periodic.Networks.{
  Unique, for_all, delete_puts, pending, pending_sync-networks, device_puts,
  full_sync_reappearing_devices-Queues,
}
use octavia_f5_provider_driv.Periodic.TenantNames.{network_id_of-tenant_name}

abbrev world : World
world = record {
  host = "host";
  find = λ _ _ _. some lb_gone;
  amphora = λ _. none;
  raises = λ _. none;
}

abbrev waiting : Pending
waiting = record {
  pending_delete = lb_gone ∷ [];
  pending_create = lb_new ∷ [];
  pending_update = record lb_new { id = "lb4"; provisioning_status = pending_update } ∷ [];
  of_listeners = lb_new ∷ [];
  of_pools = [];
  of_l7policies = [];
  scheduled_host = λ _. "host";
}

pending_sync-networks_example :
    Queues
      (delete_puts world waiting.pending_delete ++ for_all (networks (pending world waiting)))
      (pending_sync world waiting)
    × Unique (networks (pending world waiting))
    × ((n : String)
        → mem n (networks (pending world waiting))
          ≡ any (pending world waiting) (λ (lb : LoadBalancer). lb.vip.network_id == n))
pending_sync-networks_example = pending_sync-networks world waiting (λ _. refl)

network_id_of-tenant_name_example : network_id_of (tenant_name "0a-1b") ≡ "0a-1b"
network_id_of-tenant_name_example = network_id_of-tenant_name "0a-1b" refl refl

abbrev devices : List BootingDevice
devices = record { id = "d1"; cached_zone = "a"; is_backup = true } ∷ []

full_sync_reappearing_devices-Queues_example :
    Queues
      (device_puts true (lb_new ∷ []) devices)
      (full_sync_reappearing_devices world true (lb_new ∷ []) devices)
full_sync_reappearing_devices-Queues_example =
    full_sync_reappearing_devices-Queues world true (lb_new ∷ []) devices (λ _. refl)
