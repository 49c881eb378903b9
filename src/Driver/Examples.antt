-- ===== src/Driver/Examples.antt =====
-- The update of a health monitor of a pool whose load balancer is at a host.
use octavia_f5_provider_driv.Base.{◌≡◌, ◌==◌, none, some, err, validation_exception, if◌then◌else◌}
use octavia_f5_provider_driv.Driver.{World, updated}
use octavia_f5_provider_driv.Driver.Routing.{
  health_monitor, request, is_refused, to_host, request-to_host,
}

abbrev world : World
world = record {
  pool = λ id. if id == "p" then some "lb" else none;
  listener = λ id. some "lb";
  l7policy = λ id. some "l";
  loadbalancer = λ id. some ("", "port");
  get_scheduled_host = λ port. "host";
}

request-to_host_example : request world updated (health_monitor "hm" "p" 60) ≡ (
    if is_refused updated (health_monitor "hm" "p" 60)
    then err validation_exception
    else to_host world updated (health_monitor "hm" "p" 60))
request-to_host_example = request-to_host world updated (health_monitor "hm" "p" 60)
