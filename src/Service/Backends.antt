-- ===== src/Service/Backends.antt =====
-- The references up to the default pool: listener, allowed networks, TLS.
use octavia_f5_provider_driv.Base.{
  String, false, Option, none, some, List, [], ◌∷◌, ◌==◌, mem, eqb, arith, eq_refl, Bool-cases, inl,
  inr, ok, and_then, Holds, Holds-and_then, Holds-if, if◌then◌else◌,
}
use octavia_f5_provider_driv.Octavia.{Listener, Pool, LoadBalancer, is_pending_delete}
use octavia_f5_provider_driv.Names.{
  data_group_name, pool_name, application_name, tls_listener_name, tls_pool_name,
}
use octavia_f5_provider_driv.Irules.{get_proxy_irule}
use octavia_f5_provider_driv.ServiceArgs.{
  Environment, Build, extend, with_irules, with_device_irules, data_group, set_args,
}
use octavia_f5_provider_driv.ServiceTls.{
  initial, listener_tls, set_type, allow_cidrs, speaks_tls, limit_connections, pool_tls, link_pool,
  link_default_pool,
}
use octavia_f5_provider_driv.Service.References.{
  Entities, Resolves-right, Ready, extend-Ready, with_irules-Ready, with_device_irules-Ready,
}
use octavia_f5_provider_driv.Service.TlsObjects.{
  IsSelfContained, listener_tls-IsSelfContained, pool_tls-IsSelfContained,
}

server_tls-Ready :
    (name : String) (es : Entities) (b : Build)
    → Ready b
    → IsSelfContained name es
    → Ready (
        extend es (
          set_args
            (record b.args {
              servicetype = some "Service_HTTPS";
              server_tls = some name;
              redirect80 = some false;
            })
            b))
server_tls-Ready name es b h s =
    let (within, (i, p, e, _, c, v)) = extend-Ready es b h s.0 in
    (within, (i, p, e, (Resolves-right b.entities es name s.1, tt), c, v))

client_tls-Ready :
    (name : String) (es : Entities) (b : Build)
    → Ready b
    → IsSelfContained name es
    → Ready (extend es (set_args (record b.args { client_tls = some name }) b))
client_tls-Ready name es b h s =
    let (within, (i, p, e, t, _, v)) = extend-Ready es b h s.0 in
    (within, (i, p, e, t, (Resolves-right b.entities es name s.1, tt), v))

module _ (w : Environment) where
  pub initial-Ready : (lb : LoadBalancer) (l : Listener) → Ready (initial w lb l)
  unfolding initial
  initial-Ready lb l = elim (Bool-cases (w.conf.service_address_icmp_echo == "")) [
    | inl off ↦ rw off (tt, (tt, tt, tt, tt, tt, tt))
    | inr on ↦
        rw on
          ((tt, tt), (tt, tt, tt, tt, tt, (ground (arith, eq_refl (application_name lb.id)), tt)))
  ]

  pub set_type-Ready :
      (project_id : String) (l : Listener) (b : Build)
      → Ready b
      → Holds Ready (set_type w project_id l b)
  unfolding set_type
  set_type-Ready project_id l b h = Holds-if Ready (l.protocol == "TCP") _ _ h (
      Holds-if Ready (l.protocol == "UDP") _ _ h (
        Holds-if Ready (l.protocol == "HTTP") _ _ h (
          Holds-if Ready (l.protocol == "HTTPS") _ _ h (
            Holds-if Ready (l.protocol == "TERMINATED_HTTPS") _ _
              (Holds-and_then (IsSelfContained (tls_listener_name l.id)) Ready
                (listener_tls w project_id l) _ (listener_tls-IsSelfContained w project_id l)
                (λ es s. server_tls-Ready (tls_listener_name l.id) es b h s))
              (Holds-if Ready (l.protocol == "PROXY") _ _
                (with_irules-Ready (get_proxy_irule ∷ []) b h) h)))))

  pub allow_cidrs-Ready : (l : Listener) (b : Build) → Ready b → Ready (allow_cidrs w l b)
  unfolding allow_cidrs
  allow_cidrs-Ready l b h = by_cidrs l.allowed_cidrs
    where
      by_cidrs :
          (cs : List String)
          → Ready (elim cs [
            | [] ↦ b
            | _ ∷ _ ↦
                if mem "0.0.0.0/0" l.allowed_cidrs
                then b
                else with_device_irules
                    (w.conf.irule_allowed_cidrs ∷ [])
                    (extend ((data_group_name l.id, data_group l.allowed_cidrs) ∷ []) b)
          ])
      by_cidrs [] = h
      by_cidrs (c ∷ cs) = elim (Bool-cases (mem "0.0.0.0/0" l.allowed_cidrs)) [
        | inl open_to_all ↦ rw open_to_all h
        | inr limited ↦ rw limited (
            with_device_irules-Ready (w.conf.irule_allowed_cidrs ∷ [])
              (extend ((data_group_name l.id, data_group l.allowed_cidrs) ∷ []) b)
              (extend-Ready ((data_group_name l.id, data_group l.allowed_cidrs) ∷ []) b h (tt, tt)))
      ]

  pub limit_connections-Ready : (l : Listener) (b : Build) → Ready b → Ready (limit_connections l b)
  unfolding limit_connections
  limit_connections-Ready l b h = elim (Bool-cases (eqb l.connection_limit 0)) [
    | inl off ↦ rw off h
    | inr on ↦ rw on h
  ]

  link_pool-Ready :
      (project_id : String) (l : Listener) (p : Pool) (b : Build)
      → Ready b
      → Holds Ready (link_pool w project_id l p b)
  unfolding link_pool
  link_pool-Ready project_id l p b h = elim (Bool-cases (p.protocol == "PROXY")) [
    | inl proxy ↦ rw proxy (
        linked
          (with_irules (get_proxy_irule ∷ [])
            (set_args (record b.args { pool = some (pool_name p.id) }) b))
          (with_irules-Ready (get_proxy_irule ∷ []) b h))
    | inr other ↦ rw other (linked (set_args (record b.args { pool = some (pool_name p.id) }) b) h)
  ]
    where
      linked :
          (c : Build)
          → Ready c
          → Holds Ready (
              if speaks_tls l p
              then and_then (pool_tls w project_id l p) (λ es.
                ok (
                  extend es
                    (set_args (record c.args { client_tls = some (tls_pool_name p.id) }) c)))
              else ok c)
      linked c k =
          Holds-if Ready (speaks_tls l p) _ _
            (Holds-and_then (IsSelfContained (tls_pool_name p.id)) Ready (pool_tls w project_id l p)
              _ (pool_tls-IsSelfContained w project_id l p)
              (λ es s. client_tls-Ready (tls_pool_name p.id) es c k s))
            k

  pub link_default_pool-Ready :
      (project_id : String) (l : Listener) (p : Option Pool) (b : Build)
      → Ready b
      → Holds Ready (link_default_pool w project_id l p b)
  unfolding link_default_pool
  link_default_pool-Ready project_id l none b h = h
  link_default_pool-Ready project_id l (some p) b h =
      Holds-if Ready (is_pending_delete p.provisioning_status) _ _ h
        (link_pool-Ready project_id l p b h)
