-- ===== src/Devices/Examples.antt =====
-- Two devices, one of which does not answer any more.
use octavia_f5_provider_driv.Base.{
  true, false, ◌≡◌, refl, none, some, [], ◌∷◌, ◌==◌, timeout, other, if◌then◌else◌,
}
use octavia_f5_provider_driv.Devices.{
  ready, master, backup, State, World, availability, availability_check, check_device,
}
use octavia_f5_provider_driv.Devices.Availability.{Keeps, availability_check-Keeps}
use octavia_f5_provider_driv.Devices.Stale.{check_device-stale}

abbrev state : State
state = record {
  bigips = "a" ∷ "b" ∷ [];
  bigip_status = ("a", true) ∷ ("b", true) ∷ [];
  active_bigip = some "a";
  last_failover_check = 0;
  last_cleanup_check = 0;
  table =
      ("a", record { status = ready; role = some master; vrrp_priority = some 3 })
      ∷ ("b", record { status = ready; role = some backup; vrrp_priority = none })
      ∷ [];
}

abbrev world : World
world = record {
  is_active = λ d. d == "b";
  get = λ d. if d == "a" then some timeout else none;
  commit = λ d. none;
}

availability_check-Keeps_example :
    Keeps world ("a" ∷ "b" ∷ []) state (availability_check world ("a" ∷ "b" ∷ []) state).state
unfolding availability_check
availability_check-Keeps_example =
    availability_check-Keeps world ("a" ∷ "b" ∷ []) state refl (refl, (refl, tt)) refl

abbrev deadlock : World
deadlock = record world { commit = λ d. some other }

check_device-stale_example :
    let c = check_device deadlock "a" state (availability (some timeout)) in
    (c.raised ≡ some other)
    × (c.state.table ≡ state.table)
    × (check_device world "a" c.state (availability (some timeout))
        ≡ record { state = c.state; raised = none })
unfolding availability
check_device-stale_example =
    check_device-stale deadlock world "a" state false other refl refl refl refl
