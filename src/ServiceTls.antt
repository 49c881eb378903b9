-- ===== src/ServiceTls.antt =====
-- The first half of `get_service` of octavia_f5/restclient/as3objects/service.py: the type of the
-- service, the TLS objects of the listener and of its default pool, the allowed networks.
use octavia_f5_provider_driv.Base.{
  String, Bool, true, false, not, ◌&&◌, ◌||◌, Option, none, some, List, [], ◌∷◌, ◌++◌, ◌==◌, map,
  mem, eqb, Exception, Result, ok, err, certificate_retrieval, certificate_gone, and_then,
  if◌then◌else◌,
}
use octavia_f5_provider_driv.Octavia.{Listener, Pool, LoadBalancer, is_pending_delete, or_else}
use octavia_f5_provider_driv.Text.{f5label}
use octavia_f5_provider_driv.Names.{
  application_name, tls_listener_name, tls_pool_name, data_group_name, pool_name,
}
use octavia_f5_provider_driv.Irules.{get_proxy_irule}
use octavia_f5_provider_driv.Ciphers.{RuleAndGroup, get_cipher_rule_and_group}
use octavia_f5_provider_driv.Certs.{
  CaBundle, Certificate, get_ca_bundle, get_certificates, load_secret,
}
use octavia_f5_provider_driv.Tls.{get_tls_server, get_tls_client}
use octavia_f5_provider_driv.ServiceArgs.{
  Environment, Args, Entity, Build, service_address, ca_bundle, certificate, cipher_rule,
  cipher_group, tls_server, tls_client, data_group, extend, set_args, with_irules,
  with_device_irules,
}

abbrev pub is_http2 : Listener → Bool
is_http2 l = mem "h2" l.alpn_protocols

-- CertificateRetrievalException
abbrev pub is_retrieval : Exception → Bool
is_retrieval certificate_retrieval = true
is_retrieval certificate_gone = true
is_retrieval _ = false

-- A rule and its group, and what follows them.
abbrev pub with_ciphers : RuleAndGroup → List (String × Entity) → List (String × Entity)
with_ciphers g es =
    (g.rule_name, cipher_rule g.cipher_suites) ∷ (g.group_name, cipher_group g.rule_name) ∷ es

abbrev pub certificate_entities : List (String × Certificate) → List (String × Entity)
certificate_entities cs = map (λ c. (c.0, certificate c.1)) cs

abbrev pub ca_entities : Option (String × CaBundle) → List (String × Entity)
ca_entities none = []
ca_entities (some e) = (e.0, ca_bundle e.1) ∷ []

-- The CA's bundle, the ciphers, and what follows them.
abbrev pub with_ca :
    Option (String × CaBundle) → RuleAndGroup → List (String × Entity) → List (String × Entity)
with_ca ca g es = ca_entities ca ++ with_ciphers g es

abbrev pub ca_name : Option (String × CaBundle) → Option String
ca_name none = none
ca_name (some e) = some e.0

unfoldable pub limit_connections : Listener → Build → Build
limit_connections l b =
    if eqb l.connection_limit 0
    then b
    else set_args (record b.args { max_connections = some l.connection_limit }) b

-- `if len(certificates) == 1`
abbrev pub single : List (String × Certificate) → List (String × Certificate)
single (c ∷ []) = c ∷ []
single _ = []

abbrev pub first_name : List (String × Certificate) → Option String
first_name [] = none
first_name (c ∷ _) = some c.0

abbrev pub speaks_tls : Listener → Pool → Bool
speaks_tls l p =
    p.tls_enabled
    && (l.protocol == "PROXY" || l.protocol == "HTTP" || l.protocol == "TERMINATED_HTTPS")

module _ (w : Environment) where
  -- The arguments at the start; a service address only with the option for ICMP echo.
  unfoldable pub initial : LoadBalancer → Listener → Build
  unfolding f5label
  initial lb l =
      let ip = lb.vip.ip_address in
      let echo = w.conf.service_address_icmp_echo in
      record {
        args = record {
          virtual_port = l.protocol_port;
          label = f5label (or_else l.name l.description);
          virtual_addresses = record {
            address = ip;
            service_address = if echo == "" then none else some (application_name lb.id);
          };
          persistence_methods = [];
          irules = [];
          policy_endpoint = [];
          servicetype = none;
          server_tls = none;
          client_tls = none;
          redirect80 = none;
          max_connections = none;
          pool = none;
          fallback_persistence_method = none;
          profile_tcp = none;
          profile_l4 = none;
          profile_multiplex = none;
          profile_http = none;
          profile_http2 = none;
          profile_http_compression = none;
          profile_udp = none;
          snat = none;
        };
        entities =
            if echo == "" then [] else (application_name lb.id, service_address ip echo) ∷ [];
      }

  -- The name of the client's CA, and its bundle, if the listener has one and the secret is there;
  -- CertificateRetrievalException is only logged.
  client_ca : Result (String × String) → Result (Option (String × CaBundle))
  client_ca (ok (name, secret)) = ok (some (name, get_ca_bundle w.keys secret name name))
  client_ca (err e) = if is_retrieval e then ok none else err e

  unfoldable pub load_client_ca : String → Listener → Result (Option (String × CaBundle))
  unfolding client_ca load_secret
  load_client_ca project_id l =
      if not (l.client_ca_tls_certificate_id == "") && not (l.client_authentication == "NONE")
      then client_ca (load_secret w.keys project_id l.client_ca_tls_certificate_id)
      else ok none

  -- The objects of a TERMINATED_HTTPS listener, in the order of the code.
  unfoldable pub listener_tls : String → Listener → Result (List (String × Entity))
  unfolding load_client_ca get_certificates get_cipher_rule_and_group get_tls_server
  listener_tls project_id l =
      and_then (get_certificates w.keys l.tls_certificate_id l.sni_containers) (λ certs.
        and_then (load_client_ca project_id l) (λ ca.
          and_then
            (get_cipher_rule_and_group w.validate
              (or_else l.tls_ciphers w.conf.default_listener_ciphers) "Listener" l.id)
            (λ group.
              and_then
                (get_tls_server w.conf.tls_server w.conf.default_listener_tls_versions
                  (map (λ c. c.0) certs) l (ca_name ca) (not (is_http2 l)) group.group_name)
                (λ server. ok (
                  with_ca ca group
                    ((tls_listener_name l.id, tls_server server) ∷ certificate_entities certs))))))

  -- The type of the service, by the listener's protocol; another protocol sets none.
  unfoldable pub set_type : String → Listener → Build → Result Build
  unfolding listener_tls get_proxy_irule
  set_type project_id l b =
      let typed : String → Args = λ t. record b.args { servicetype = some t } in
      if l.protocol == "TCP"
      then ok (set_args (typed w.conf.tcp_service_type) b)
      else if l.protocol == "UDP"
      then ok (set_args (typed "Service_UDP") b)
      else if l.protocol == "HTTP"
      then ok (set_args (typed "Service_HTTP") b)
      else if l.protocol == "HTTPS"
      then ok (set_args (typed w.conf.tcp_service_type) b)
      else if l.protocol == "TERMINATED_HTTPS"
      then and_then (listener_tls project_id l) (λ es. ok (
          extend es (
            set_args
              (record (typed "Service_HTTPS") {
                server_tls = some (tls_listener_name l.id);
                redirect80 = some false;
              })
              b)))
      else if l.protocol == "PROXY"
      then ok (with_irules (get_proxy_irule ∷ []) (set_args (typed "Service_TCP") b))
      else ok b

  unfoldable pub allow_cidrs : Listener → Build → Build
  allow_cidrs l b = elim l.allowed_cidrs [
    | [] ↦ b
    | c ∷ cs ↦
        if mem "0.0.0.0/0" l.allowed_cidrs
        then b
        else with_device_irules (w.conf.irule_allowed_cidrs ∷ [])
            (extend ((data_group_name l.id, data_group l.allowed_cidrs) ∷ []) b)
  ]

  unfoldable pub load_trust_ca : String → Pool → Result (Option (String × CaBundle))
  unfolding load_secret
  load_trust_ca project_id p =
      if p.ca_tls_certificate_id == ""
      then ok none
      else and_then (load_secret w.keys project_id p.ca_tls_certificate_id)
          (λ s. ok (some (s.0, get_ca_bundle w.keys s.1 s.0 s.0)))

  -- The objects for TLS to the members of a pool, in the order of the code.
  unfoldable pub pool_tls : String → Listener → Pool → Result (List (String × Entity))
  unfolding load_trust_ca get_certificates get_cipher_rule_and_group get_tls_client
  pool_tls project_id l p =
      and_then (get_certificates w.keys p.tls_certificate_id p.sni_containers) (λ certs.
        and_then (load_trust_ca project_id p) (λ ca.
          and_then
            (get_cipher_rule_and_group w.validate
              (or_else p.tls_ciphers w.conf.default_pool_ciphers) "Pool" p.id)
            (λ group.
              let client =
                get_tls_client w.conf.tls_client w.conf.default_pool_tls_versions p (ca_name ca)
                  (first_name (single certs)) (not (is_http2 l)) group.group_name in
              ok (
                certificate_entities (single certs)
                ++ with_ca ca group ((tls_pool_name p.id, tls_client client) ∷ [])))))

  unfoldable pub link_pool : String → Listener → Pool → Build → Result Build
  unfolding pool_tls get_proxy_irule
  link_pool project_id l p b =
      let linked = set_args (record b.args { pool = some (pool_name p.id) }) b in
      let b' =
        if p.protocol == "PROXY" then with_irules (get_proxy_irule ∷ []) linked else linked in
      if speaks_tls l p
      then and_then (pool_tls project_id l p) (λ es.
        ok (extend es (set_args (record b'.args { client_tls = some (tls_pool_name p.id) }) b')))
      else ok b'

  -- `none` is a listener without default pool.
  unfoldable pub link_default_pool : String → Listener → Option Pool → Build → Result Build
  unfolding link_pool
  link_default_pool project_id l none b = ok b
  link_default_pool project_id l (some p) b =
      if is_pending_delete p.provisioning_status then ok b else link_pool project_id l p b
