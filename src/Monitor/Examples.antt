-- ===== src/Monitor/Examples.antt =====
-- The timing of an HTTP monitor.
use octavia_f5_provider_driv.Base.{false, ◌≤◌, ◌<◌, ◌≡◌, ◌↔◌, refl, arith, none, some}
use octavia_f5_provider_driv.Samples.{http_monitor}
use octavia_f5_provider_driv.Monitor.{
  Conf, Monitor, get_monitor, get_check, get_recv_text, get_send_text, timeout_of,
}
use octavia_f5_provider_driv.Text.{f5label}
use octavia_f5_provider_driv.Monitor.Timing.{get_monitor_timing}

abbrev conf : Conf
conf = record { profile_healthmonitor_tls = ""; healthmonitor_receive = "" }

abbrev provisioned : Monitor
provisioned = record {
  check = record {
    monitor_type = "http";
    send = some "GET / HTTP/1.0\\r\\n\\r\\n";
    receive = some "HTTP/1.(0|1) 200";
    tls_hello_script = false;
    query_name = none;
  };
  interval = 10;
  timeout = 31;
  target_address = none;
  target_port = none;
  client_tls = none;
  label = "check";
}

get_monitor_test : get_monitor conf http_monitor "" 0 ≡ some provisioned
unfolding get_monitor get_check timeout_of f5label get_recv_text get_send_text
get_monitor_test = refl

get_monitor_timing_example :
    (provisioned.interval ≡ http_monitor.delay)
    × (1 ≤ provisioned.timeout)
    × (provisioned.timeout ≤ 900)
    × ((provisioned.interval < provisioned.timeout) ↔ (http_monitor.delay < 900))
get_monitor_timing_example =
    get_monitor_timing conf http_monitor "" 0 provisioned (omega arith) get_monitor_test
