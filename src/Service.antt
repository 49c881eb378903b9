-- ===== src/Service.antt =====
-- `get_service` of octavia_f5/restclient/as3objects/service.py: a listener as an AS3 service, with the
-- objects that it refers to.
pub mod Consistent
pub mod Declared
pub mod Backends
pub mod Extras
pub mod Linked
pub mod References
pub mod TlsObjects
pub mod Samples
mod Examples
use octavia_f5_provider_driv.Base.{
  String, Bool, false, Option, none, some, List, [], ◌∷◌, ◌++◌, keep, mem, Result, ok, err,
  and_then, type_not_supported, if◌then◌else◌,
}
use octavia_f5_provider_driv.Octavia.{Listener, LoadBalancer}
use octavia_f5_provider_driv.Names.{listener_name}
use octavia_f5_provider_driv.ServiceArgs.{Environment, Args, Entity, Build, service, set_args}
use octavia_f5_provider_driv.ServiceTls.{
  initial, set_type, allow_cidrs, limit_connections, link_default_pool,
}
use octavia_f5_provider_driv.ServiceExtras.{
  insert_headers, pool_persistence, apply_tags, apply_policies, is_endpoint_policy, add_policy,
  distinct_irules, fall_back, set_defaults, set_snat,
}

-- The class Service: TypeNotSupportedException for a type that AS3 does not have.
abbrev pub is_supported : Option String → Bool
is_supported none = false
is_supported (some t) = mem t (
    "Service_TCP" ∷ "Service_UDP" ∷ "Service_HTTP" ∷ "Service_HTTPS" ∷ "Service_L4"
    ∷ "Service_Generic" ∷ [])

module _ (w : Environment) where
  -- What the code does with the arguments once all iRules and profiles are known.
  finish : Listener → Args → Args
  unfolding distinct_irules fall_back set_defaults set_snat
  finish l a =
      set_snat w l (set_defaults w l (fall_back (record a { irules = distinct_irules a.irules })))

  -- From the persistence on, with a type.
  add_extras : Listener → Build → Result Build
  unfolding finish pool_persistence apply_tags apply_policies add_policy
  add_extras l b =
      let b' =
        apply_policies w l.l7policies (apply_tags w l.tags (pool_persistence w l.default_pool b)) in
      and_then (add_policy l (keep (is_endpoint_policy w) l.l7policies) b')
        (λ c. ok (set_args (finish l c.args) c))

  abbrev add_service : Listener → Build → Result (List (String × Entity))
  add_service l b =
      if is_supported b.args.servicetype
      then ok (b.entities ++ (listener_name l.id, service b.args) ∷ [])
      else err type_not_supported

  build_service : LoadBalancer → Listener → Result Build
  unfolding initial set_type allow_cidrs limit_connections link_default_pool insert_headers
      add_extras
  build_service lb l = and_then (set_type w lb.project_id l (initial w lb l)) (λ b.
      and_then
        (link_default_pool w lb.project_id l l.default_pool
          (limit_connections l (allow_cidrs w l b)))
        (λ c. and_then (insert_headers l c) (λ d. add_extras l d)))

  unfoldable pub get_service : LoadBalancer → Listener → Result (List (String × Entity))
  unfolding build_service
  get_service lb l = and_then (build_service lb l) (λ b. add_service l b)
