-- ===== src/Monitor/Timing.antt =====
-- The timeouts that monitors are provisioned with.
use octavia_f5_provider_driv.Base.{ℕ, ◌≤◌, ◌<◌, String, ◌≡◌, ◌↔◌, refl, some, arith}
use octavia_f5_provider_driv.Octavia.{HealthMonitor}
use octavia_f5_provider_driv.Monitor.{Conf, Monitor, timeout_of, get_monitor}

timeout_of_bounds :
    (hm : HealthMonitor)
    → 0 < hm.fall_threshold
    → (1 ≤ timeout_of hm) × (timeout_of hm ≤ 900) × ((hm.delay < timeout_of hm) ↔ (hm.delay < 900))
unfolding timeout_of
timeout_of_bounds hm h = (omega arith, omega arith, (λ p. omega arith, λ p. grind arith))

get_monitor-fields :
    (conf : Conf) (hm : HealthMonitor) (address : String) (port : ℕ) (m : Monitor)
    → get_monitor conf hm address port ≡ some m
    → (m.interval ≡ hm.delay) × (m.timeout ≡ timeout_of hm)
unfolding get_monitor
get_monitor-fields conf hm address port m e = ground arith

-- A provisioned monitor probes at the monitor's own delay, and its timeout lies between 1 and 900
-- seconds. With at least one failed probe required, the timeout is longer than the interval exactly
-- if the delay is below 900 seconds.
pub get_monitor_timing :
    (conf : Conf) (hm : HealthMonitor) (address : String) (port : ℕ) (m : Monitor)
    → 0 < hm.fall_threshold
    → get_monitor conf hm address port ≡ some m
    → (m.interval ≡ hm.delay)
      × (1 ≤ m.timeout)
      × (m.timeout ≤ 900)
      × ((m.interval < m.timeout) ↔ (hm.delay < 900))
get_monitor_timing conf hm address port m h e =
    let (same, timeout) = get_monitor-fields conf hm address port m e in
    let (low, high, longer) = timeout_of_bounds hm h in rw (same, timeout) (refl, low, high, longer)
