-- ===== src/Service/Declared.antt =====
-- Every reference of a service resolves.
use octavia_f5_provider_driv.Base.{
  ◌&&◌, ◌||◌, ◌≡◌, List, [], ◌∷◌, ◌++◌, any, mem, keep, All, All-append, Bool-cases, inl, inr, ok,
  Holds, Holds-and_then, Holds-if, Holds-returned,
}
use octavia_f5_provider_driv.Octavia.{Listener, LoadBalancer}
use octavia_f5_provider_driv.Names.{listener_name}
use octavia_f5_provider_driv.ServiceArgs.{
  Environment, Args, Build, IruleRef, service, same_irule, is_type,
}
use octavia_f5_provider_driv.ServiceTls.{
  initial, set_type, allow_cidrs, limit_connections, link_default_pool,
}
use octavia_f5_provider_driv.ServiceExtras.{
  has_irule, is_given, insert_headers, pool_persistence, apply_tags, apply_policies,
  is_endpoint_policy, add_policy, distinct_irules, fall_back, set_defaults, set_snat,
}
use octavia_f5_provider_driv.Service.{
  is_supported, finish, add_extras, add_service, build_service, get_service,
}
use octavia_f5_provider_driv.Service.References.{
  Entities, IruleIn, ArgsIn, Within, Resolves-left, Within-grow, ArgsIn-grow, Ready,
}
use octavia_f5_provider_driv.Service.Linked.{EndsLinked, get_service-EndsLinked}
use octavia_f5_provider_driv.Service.Backends.{
  initial-Ready, set_type-Ready, allow_cidrs-Ready, limit_connections-Ready,
  link_default_pool-Ready,
}
use octavia_f5_provider_driv.Service.Extras.{
  insert_headers-Ready, pool_persistence-Ready, apply_tags-Ready, apply_policies-Ready,
  add_policy-Ready,
}

distinct_irules-In :
    (es : Entities) (rs : List IruleRef)
    → All (IruleIn es) rs
    → All (IruleIn es) (distinct_irules rs)
unfolding distinct_irules
distinct_irules-In es [] h = tt
distinct_irules-In es (r ∷ rs) h =
    elim (Bool-cases (any (distinct_irules rs) (λ s. same_irule s r))) [
      | inl there ↦ rw there (distinct_irules-In es rs h.1)
      | inr new ↦ rw new (h.0, distinct_irules-In es rs h.1)
    ]

module _ (w : Environment) (l : Listener) where
  set_snat-In : (es : Entities) (a : Args) → ArgsIn es a → ArgsIn es (set_snat w l a)
  unfolding set_snat
  set_snat-In es a h = elim (Bool-cases (mem "ccloud_special_l4_deactivate_snat" l.tags)) [
    | inl tagged ↦ rw tagged h
    | inr plain ↦ elim (Bool-cases w.conf.snat_virtual) [
      | inl virtual ↦ rw (plain, virtual) h
      | inr auto ↦ rw (plain, auto) h
    ]
  ]

  fall_back-In : (es : Entities) (a : Args) → ArgsIn es a → ArgsIn es (fall_back a)
  unfolding fall_back
  fall_back-In es a h =
      elim (Bool-cases (is_type "Service_L4" a && (has_irule a.irules || is_given a.profile_tcp))) [
        | inl falls ↦ rw falls h
        | inr stays ↦ rw stays h
      ]

  finish-In : (es : Entities) (a : Args) → ArgsIn es a → ArgsIn es (finish w l a)
  unfolding finish set_defaults
  finish-In es a (i, p, e, t, c, v) = set_snat-In es _ (
      fall_back-In es (record a { irules = distinct_irules a.irules })
        (distinct_irules-In es a.irules i, p, e, t, c, v))

  add_extras-Ready : (b : Build) → Ready b → Holds Ready (add_extras w l b)
  unfolding add_extras
  add_extras-Ready b h =
      let ps = keep (is_endpoint_policy w) l.l7policies in
      let b' =
        apply_policies w l.l7policies (apply_tags w l.tags (pool_persistence w l.default_pool b)) in
      Holds-and_then Ready Ready (add_policy l ps b') _
        (add_policy-Ready w l ps b' (
          apply_policies-Ready w l.l7policies _
            (apply_tags-Ready w l.tags _ (pool_persistence-Ready w l.default_pool b h))))
        (λ c k. (k.0, finish-In c.entities c.args k.1))

  build_service-Ready : (lb : LoadBalancer) → Holds Ready (build_service w lb l)
  unfolding build_service
  build_service-Ready lb =
      Holds-and_then Ready Ready (set_type w lb.project_id l (initial w lb l)) _
        (set_type-Ready w lb.project_id l _ (initial-Ready w lb l))
        (λ b h.
          Holds-and_then Ready Ready
            (link_default_pool w lb.project_id l l.default_pool
              (limit_connections l (allow_cidrs w l b)))
            _
            (link_default_pool-Ready w lb.project_id l l.default_pool _
              (limit_connections-Ready w l _ (allow_cidrs-Ready w l b h)))
            (λ c k.
              Holds-and_then Ready Ready (insert_headers l c) _ (insert_headers-Ready l c k)
                (λ d m. add_extras-Ready d m)))

  add_service-Within : (b : Build) → Ready b → Holds (λ es. Within es es) (add_service w l b)
  add_service-Within b h =
      let last : Entities = (listener_name l.id, service b.args) ∷ [] in
      let left = Resolves-left b.entities last in
      Holds-if (λ es. Within es es) (is_supported b.args.servicetype) (ok (b.entities ++ last)) _
        (All-append _ b.entities last
          (Within-grow b.entities (b.entities ++ last) left b.entities h.0)
          (ArgsIn-grow b.entities (b.entities ++ last) left b.args h.1, tt))
        tt

  declared-Within : (lb : LoadBalancer) → Holds (λ es. Within es es) (get_service w lb l)
  unfolding get_service
  declared-Within lb =
      Holds-and_then Ready (λ es. Within es es) (build_service w lb l) _ (build_service-Ready lb)
        (λ b h. add_service-Within b h)

  -- What `get_service` returns for a listener declares what these references name: those of the
  -- service to iRules that are not the device's, to the persistence profile, the endpoint policy, the
  -- service address, and the TLS server and client; those of the persistence profile to its iRule;
  -- and those of the TLS objects to their certificates, CA bundles and cipher groups, and of the
  -- groups to their rules. It ends with the listener's service, and the pool that this refers to is
  -- the listener's default pool, or none if there is no such pool or it is being deleted. Whether
  -- pools are declared is not stated, nor anything of the pool of an endpoint policy.
  pub get_service-Within :
      (lb : LoadBalancer) (es : Entities)
      → get_service w lb l ≡ ok es
      → Within es es × EndsLinked l es
  get_service-Within lb es e = (
    Holds-returned (λ es. Within es es) (get_service w lb l) es (declared-Within lb) e,
    Holds-returned (EndsLinked l) (get_service w lb l) es (get_service-EndsLinked w l lb) e,
  )
