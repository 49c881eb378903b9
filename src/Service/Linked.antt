-- ===== src/Service/Linked.antt =====
-- The default pool of a service.
use octavia_f5_provider_driv.Base.{
  String, not, ◌&&◌, ◌||◌, ◌≡◌, refl, Option, none, some, List, [], ◌∷◌, ◌++◌, ◌==◌, eqb, mem, keep,
  Bool-cases, inl, inr, ok, Holds, Holds-and_then, Holds-and_then_any, Holds-if, if_both,
  if◌then◌else◌,
}
use octavia_f5_provider_driv.Octavia.{
  Listener, LoadBalancer, Pool, SessionPersistence, L7Policy, is_pending_delete,
}
use octavia_f5_provider_driv.Names.{listener_name, pool_name, data_group_name}
use octavia_f5_provider_driv.Esd.{Esd}
use octavia_f5_provider_driv.Policy.{get_endpoint_policy}
use octavia_f5_provider_driv.Irules.{get_header_irules}
use octavia_f5_provider_driv.ServiceArgs.{
  data_group, extend, with_device_irules, Environment, Args, Build, service, is_type, is_http_type,
  with_irules,
}
use octavia_f5_provider_driv.ServiceTls.{
  initial, set_type, listener_tls, allow_cidrs, limit_connections, link_pool, link_default_pool,
  pool_tls, speaks_tls,
}
use octavia_f5_provider_driv.ServiceExtras.{
  typed_headers, insert_headers, app_cookie, http_persistence, source_ip_persistence,
  set_persistence, pool_persistence, apply_args, apply_esd, apply_tags, apply_policies,
  is_endpoint_policy, add_policy, fall_back, set_defaults, set_snat, has_irule, is_given,
  distinct_irules,
}
use octavia_f5_provider_driv.Service.{finish, add_extras, build_service, get_service, is_supported}
use octavia_f5_provider_driv.Service.References.{Entities}

-- The pool that a service is given: the default pool, if it is not being deleted.
abbrev pub live_pool : Option Pool → Option String
live_pool none = none
live_pool (some p) = if is_pending_delete p.provisioning_status then none else some (pool_name p.id)

-- The objects end with the listener's service, which has that pool.
abbrev pub EndsLinked : Listener → Entities → Type 0
EndsLinked l es =
    (front : Entities) × (a : Args) × (es ≡ front ++ (listener_name l.id, service a) ∷ [])
    × (a.pool ≡ live_pool l.default_pool)

module _ (o : Option String) where
  -- The build so far has this pool.
  abbrev Linked : Build → Type 0
  Linked b = b.args.pool ≡ o

  typed_headers-Linked :
      (t : Option String) (l : Listener) (b : Build) → Linked b → Holds Linked (typed_headers t l b)
  unfolding typed_headers
  typed_headers-Linked none l b h = tt
  typed_headers-Linked (some t) l b h =
      if_both Linked (is_http_type b.args) (with_irules (get_header_irules l.insert_headers) b) b h
        h

  insert_headers-Linked : (l : Listener) (b : Build) → Linked b → Holds Linked (insert_headers l b)
  unfolding insert_headers
  insert_headers-Linked l b h = typed_headers-Linked b.args.servicetype l b h

  http_persistence-Linked :
      (p : Pool) (s : SessionPersistence) (b : Build) → Linked b → Linked (http_persistence p s b)
  unfolding http_persistence app_cookie
  http_persistence-Linked p s b h =
      if_both Linked (s.type == "APP_COOKIE" && not (s.cookie_name == "")) _ _ h
        (if_both Linked (s.type == "HTTP_COOKIE") _ _ h h)

  apply_esd-Linked : (e : Option Esd) (b : Build) → Linked b → Linked (apply_esd e b)
  unfolding apply_esd apply_args
  apply_esd-Linked none b h = h
  apply_esd-Linked (some e) b h = h

  add_policy-Linked :
      (l : Listener) (ps : List L7Policy) (b : Build) → Linked b → Holds Linked (add_policy l ps b)
  unfolding add_policy
  add_policy-Linked l [] b h = h
  add_policy-Linked l (p ∷ ps) b h =
      Holds-if Linked (is_type "Service_UDP" b.args) (ok b) _ h
        (Holds-and_then_any Linked (get_endpoint_policy (p ∷ ps)) _ (λ policy. h))

  module _ (w : Environment) where
    source_ip_persistence-Linked :
        (s : SessionPersistence) (b : Build) → Linked b → Linked (source_ip_persistence w s b)
    unfolding source_ip_persistence
    source_ip_persistence-Linked s b h =
        if_both Linked (not (s.type == "SOURCE_IP")) _ _ h
          (if_both Linked (eqb s.persistence_timeout 0 && s.persistence_granularity == "") _ _ h h)

    set_persistence-Linked :
        (p : Pool) (s : Option SessionPersistence) (b : Build)
        → Linked b
        → Linked (set_persistence w p s b)
    unfolding set_persistence
    set_persistence-Linked p none b h = h
    set_persistence-Linked p (some s) b h = source_ip_persistence-Linked s _ (
        if_both Linked (is_http_type b.args) (http_persistence p s b) b
          (http_persistence-Linked p s b h) h)

    pool_persistence-Linked :
        (p : Option Pool) (b : Build) → Linked b → Linked (pool_persistence w p b)
    unfolding pool_persistence
    pool_persistence-Linked none b h = h
    pool_persistence-Linked (some p) b h = set_persistence-Linked p p.session_persistence b h

    apply_tags-Linked : (ts : List String) (b : Build) → Linked b → Linked (apply_tags w ts b)
    unfolding apply_tags
    apply_tags-Linked [] b h = h
    apply_tags-Linked (t ∷ ts) b h = apply_tags-Linked ts _ (apply_esd-Linked (w.get_esd t) b h)

    apply_policies-Linked :
        (ps : List L7Policy) (b : Build) → Linked b → Linked (apply_policies w ps b)
    unfolding apply_policies
    apply_policies-Linked [] b h = h
    apply_policies-Linked (p ∷ ps) b h =
        apply_policies-Linked ps _ (apply_esd-Linked (w.get_esd p.name) b h)

    fall_back-pool : (a : Args) → a.pool ≡ o → (fall_back a).pool ≡ o
    unfolding fall_back
    fall_back-pool a h =
        if_both (λ (c : Args). c.pool ≡ o)
          (is_type "Service_L4" a && (has_irule a.irules || is_given a.profile_tcp)) _ _ h h

    finish-pool : (l : Listener) (a : Args) → a.pool ≡ o → (finish w l a).pool ≡ o
    unfolding finish set_defaults set_snat
    finish-pool l a h =
        let k = fall_back-pool (record a { irules = distinct_irules a.irules }) h in
        if_both (λ (c : Args). c.pool ≡ o) (mem "ccloud_special_l4_deactivate_snat" l.tags) _ _ k
          (if_both (λ (c : Args). c.pool ≡ o) w.conf.snat_virtual _ _ k k)

    add_extras-Linked : (l : Listener) (b : Build) → Linked b → Holds Linked (add_extras w l b)
    unfolding add_extras
    add_extras-Linked l b h =
        Holds-and_then Linked Linked (add_policy l (keep (is_endpoint_policy w) l.l7policies) _) _
          (add_policy-Linked l (keep (is_endpoint_policy w) l.l7policies) _ (
            apply_policies-Linked l.l7policies _
              (apply_tags-Linked l.tags _ (pool_persistence-Linked l.default_pool b h))))
          (λ c k. finish-pool l c.args k)

module _ (w : Environment) (l : Listener) where
  set_type-none :
      (project_id : String) (b : Build)
      → Linked none b
      → Holds (Linked none) (set_type w project_id l b)
  unfolding set_type
  set_type-none project_id b h = Holds-if (Linked none) (l.protocol == "TCP") _ _ h (
      Holds-if (Linked none) (l.protocol == "UDP") _ _ h (
        Holds-if (Linked none) (l.protocol == "HTTP") _ _ h (
          Holds-if (Linked none) (l.protocol == "HTTPS") _ _ h (
            Holds-if (Linked none) (l.protocol == "TERMINATED_HTTPS") _ _
              (Holds-and_then_any (Linked none) (listener_tls w project_id l) _ (λ es. h))
              (Holds-if (Linked none) (l.protocol == "PROXY") _ _ h h)))))

  allow_cidrs-none : (b : Build) → Linked none b → Linked none (allow_cidrs w l b)
  unfolding allow_cidrs
  allow_cidrs-none b h = by_cidrs l.allowed_cidrs
    where
      by_cidrs :
          (cs : List String)
          → Linked none (elim cs [
            | [] ↦ b
            | _ ∷ _ ↦
                if mem "0.0.0.0/0" l.allowed_cidrs
                then b
                else with_device_irules
                    (w.conf.irule_allowed_cidrs ∷ [])
                    (extend ((data_group_name l.id, data_group l.allowed_cidrs) ∷ []) b)
          ])
      by_cidrs [] = h
      by_cidrs (c ∷ cs) = if_both (Linked none) (mem "0.0.0.0/0" l.allowed_cidrs) _ _ h h

  limit_connections-none : (b : Build) → Linked none b → Linked none (limit_connections l b)
  unfolding limit_connections
  limit_connections-none b h = if_both (Linked none) (eqb l.connection_limit 0) _ _ h h

  link_pool-Linked :
      (project_id : String) (p : Pool) (b : Build)
      → Holds (Linked (some (pool_name p.id))) (link_pool w project_id l p b)
  unfolding link_pool
  link_pool-Linked project_id p b = elim (Bool-cases (p.protocol == "PROXY")) [
    | inl proxy ↦ rw proxy (
        Holds-if (Linked (some (pool_name p.id))) (speaks_tls l p) _ _
          (Holds-and_then_any (Linked (some (pool_name p.id))) (pool_tls w project_id l p) _
            (λ es. refl))
          refl)
    | inr other ↦ rw other (
        Holds-if (Linked (some (pool_name p.id))) (speaks_tls l p) _ _
          (Holds-and_then_any (Linked (some (pool_name p.id))) (pool_tls w project_id l p) _
            (λ es. refl))
          refl)
  ]

  link_default_pool-Linked :
      (project_id : String) (o : Option Pool) (b : Build)
      → Linked none b
      → Holds (Linked (live_pool o)) (link_default_pool w project_id l o b)
  unfolding link_default_pool
  link_default_pool-Linked project_id none b h = h
  link_default_pool-Linked project_id (some p) b h =
      elim (Bool-cases (is_pending_delete p.provisioning_status)) [
        | inl deleted ↦ rw deleted h
        | inr live ↦ rw live (link_pool-Linked project_id p b)
      ]

  build_service-Linked :
      (lb : LoadBalancer) → Holds (Linked (live_pool l.default_pool)) (build_service w lb l)
  unfolding build_service initial
  build_service-Linked lb =
      let o = live_pool l.default_pool in
      Holds-and_then (Linked none) (Linked o) (set_type w lb.project_id l (initial w lb l)) _
        (set_type-none lb.project_id (initial w lb l) refl)
        (λ b h.
          Holds-and_then (Linked o) (Linked o)
            (link_default_pool w lb.project_id l l.default_pool
              (limit_connections l (allow_cidrs w l b)))
            _
            (link_default_pool-Linked lb.project_id l.default_pool _
              (limit_connections-none _ (allow_cidrs-none b h)))
            (λ c k.
              Holds-and_then (Linked o) (Linked o) (insert_headers l c) _
                (insert_headers-Linked o l c k) (λ d m. add_extras-Linked o w l d m)))

  pub get_service-EndsLinked : (lb : LoadBalancer) → Holds (EndsLinked l) (get_service w lb l)
  unfolding get_service
  get_service-EndsLinked lb =
      Holds-and_then (Linked (live_pool l.default_pool)) (EndsLinked l) (build_service w lb l) _
        (build_service-Linked lb)
        (λ b h.
          Holds-if (EndsLinked l) (is_supported b.args.servicetype) (ok _) _
            (b.entities, b.args, refl, h) tt)
