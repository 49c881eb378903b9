-- ===== src/Samples.antt =====
-- Small load balancers and their parts, for the examples of the other modules.
use octavia_f5_provider_driv.Base.{true, false, none, some, [], ◌∷◌}
use octavia_f5_provider_driv.Octavia.{
  HealthMonitor, Member, Pool, L7Rule, L7Policy, Listener, LoadBalancer, active, pending_create,
  pending_update, pending_delete,
}

abbrev pub http_monitor : HealthMonitor
http_monitor = record {
  id = "hm1";
  name = "check";
  provisioning_status = active;
  type = "HTTP";
  delay = 10;
  fall_threshold = 3;
  domain_name = "";
  http_version = "";
  http_method = "GET";
  url_path = "/";
  expected_codes = "200";
}

abbrev pub member_a : Member
member_a = record {
  id = "a";
  provisioning_status = active;
  ip_address = "10.0.0.1";
  protocol_port = 80;
  weight = 1;
  backup = false;
  enabled = true;
  monitor_address = "";
  monitor_port = 0;
}

abbrev pub member_b : Member
member_b = record member_a { id = "b"; ip_address = "10.0.0.2"; weight = 10; monitor_port = 8080 }

abbrev pub sample_pool : Pool
sample_pool = record {
  id = "p1";
  name = "web";
  description = "";
  provisioning_status = pending_update;
  protocol = "HTTP";
  lb_algorithm = "LEAST_CONNECTIONS";
  tls_enabled = false;
  tls_ciphers = "";
  tls_versions = [];
  tls_certificate_id = "";
  sni_containers = [];
  ca_tls_certificate_id = "";
  session_persistence = none;
  members = member_a ∷ member_b ∷ [];
  health_monitor = some http_monitor;
}

abbrev pub sample_rule : L7Rule
sample_rule = record {
  id = "r1";
  provisioning_status = pending_create;
  type = "PATH";
  compare_type = "STARTS_WITH";
  key = "";
  value = "/api";
  invert = false;
}

abbrev pub sample_policy : L7Policy
sample_policy = record {
  id = "l7";
  name = "api";
  description = "";
  provisioning_status = pending_create;
  action = "REDIRECT_TO_POOL";
  redirect_pool_id = "p1";
  redirect_url = "";
  redirect_prefix = "";
  l7rules = sample_rule ∷ [];
}

abbrev pub sample_listener : Listener
sample_listener = record {
  id = "l1";
  name = "http";
  description = "";
  provisioning_status = pending_update;
  protocol = "HTTP";
  protocol_port = 80;
  connection_limit = 0;
  default_pool = some sample_pool;
  allowed_cidrs = [];
  alpn_protocols = [];
  insert_headers = [];
  tags = [];
  tls_ciphers = "";
  tls_versions = [];
  tls_certificate_id = "";
  sni_containers = [];
  client_ca_tls_certificate_id = "";
  client_authentication = "NONE";
  l7policies = sample_policy ∷ [];
}

abbrev pub lb_new : LoadBalancer
lb_new = record {
  id = "lb1";
  project_id = "project";
  server_group_id = "host";
  provisioning_status = pending_create;
  vip = record {
    ip_address = "10.0.0.9";
    network_id = "net1";
    subnet_id = "subnet1";
    port_id = "port1";
  };
  listeners = sample_listener ∷ [];
  pools = sample_pool ∷ [];
}

abbrev pub lb_gone : LoadBalancer
lb_gone = record lb_new { id = "lb2"; provisioning_status = pending_delete }

abbrev pub lb_kept : LoadBalancer
lb_kept = record lb_new { id = "lb3"; provisioning_status = active }
