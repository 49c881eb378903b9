-- ===== src/Service/Extras.antt =====
-- The references from the iRules for headers to the L7 policies.
use octavia_f5_provider_driv.Base.{
  String, not, ◌&&◌, ◌≡◌, refl, Option, none, some, List, [], ◌∷◌, ◌++◌, ◌==◌, eqb, All-append,
  arith, eq_refl, Bool-cases, inl, inr, Holds, Holds-and_then_any, Holds-if,
}
use octavia_f5_provider_driv.Octavia.{Listener, Pool, SessionPersistence, L7Policy}
use octavia_f5_provider_driv.Names.{wrapper_policy_name}
use octavia_f5_provider_driv.Policy.{EndpointPolicy, get_endpoint_policy}
use octavia_f5_provider_driv.Esd.{Esd, get_esd_entities}
use octavia_f5_provider_driv.Irules.{
  Persist, get_app_cookie_irule, get_app_cookie, get_source_ip, get_header_irules,
}
use octavia_f5_provider_driv.ServiceArgs.{
  pointer, irule, persist, endpoint_policy, Environment, Build, extend, set_args, is_type,
  is_http_type,
}
use octavia_f5_provider_driv.ServiceExtras.{
  typed_headers, type_text, insert_headers, http_persistence, app_cookie, source_ip_persistence,
  set_persistence, pool_persistence, apply_args, apply_esd, apply_tags, apply_policies, add_policy,
}
use octavia_f5_provider_driv.Service.References.{
  Entities, Resolves-right, Ready, extend-Ready, with_irules-Ready, with_device_irules-Ready,
}

-- A profile without an iRule, and the service that points to it.
persist-Ready :
    (profile : String × Persist)
    → profile.1.irule ≡ none
    → (b : Build) → Ready b
    → Ready (
        extend
          ((profile.0, persist profile.1) ∷ [])
          (set_args (record b.args { persistence_methods = pointer profile.0 ∷ [] }) b))
persist-Ready profile plain b h =
    let es : Entities = (profile.0, persist profile.1) ∷ [] in
    let (within, (i, _, e, t, c, v)) = extend-Ready es b h (rw plain tt, tt) in
    (
      within,
      (
        i,
        (Resolves-right b.entities es profile.0 (ground (arith, eq_refl profile.0)), tt),
        e,
        t,
        c,
        v,
      ),
    )

typed_headers-Ready :
    (t : Option String) (l : Listener) (b : Build) → Ready b → Holds Ready (typed_headers t l b)
unfolding typed_headers
typed_headers-Ready none l b h = tt
typed_headers-Ready (some t) l b h = elim (Bool-cases (is_http_type b.args)) [
  | inl http ↦ rw http (with_irules-Ready (get_header_irules l.insert_headers) b h)
  | inr other ↦ rw other h
]

pub insert_headers-Ready : (l : Listener) (b : Build) → Ready b → Holds Ready (insert_headers l b)
unfolding insert_headers
insert_headers-Ready l b h = typed_headers-Ready b.args.servicetype l b h

-- The persistence profile of a cookie refers to the iRule in front of it.
app_cookie-Ready :
    (p : Pool) (s : SessionPersistence) (b : Build) → Ready b → Ready (app_cookie p s b)
unfolding app_cookie get_app_cookie_irule get_app_cookie
app_cookie-Ready p s b h =
    let rule = get_app_cookie_irule s.cookie_name in
    let profile = get_app_cookie s.cookie_name in
    let es : Entities = (rule.0, irule rule.1) ∷ (profile.0, persist profile.1) ∷ [] in
    let (within, (i, _, e, t, c, v)) =
      extend-Ready es b h (tt, ((ground (arith, eq_refl rule.0), tt), tt)) in
    (
      within,
      (
        i,
        (Resolves-right b.entities es profile.0 (ground (arith, eq_refl profile.0)), tt),
        e,
        t,
        c,
        v,
      ),
    )

http_persistence-Ready :
    (p : Pool) (s : SessionPersistence) (b : Build) → Ready b → Ready (http_persistence p s b)
unfolding http_persistence
http_persistence-Ready p s b (within, (i, q, e, t, c, v)) =
    elim (Bool-cases (s.type == "APP_COOKIE" && not (s.cookie_name == ""))) [
      | inl app ↦ rw app (app_cookie-Ready p s b (within, (i, q, e, t, c, v)))
      | inr other ↦ elim (Bool-cases (s.type == "HTTP_COOKIE")) [
        | inl http ↦ rw (other, http) (within, (i, (tt, tt), e, t, c, v))
        | inr none_of ↦ rw (other, none_of) (within, (i, q, e, t, c, v))
      ]
    ]

module _ (w : Environment) where
  source_ip_persistence-Ready :
      (s : SessionPersistence) (b : Build) → Ready b → Ready (source_ip_persistence w s b)
  unfolding source_ip_persistence get_source_ip
  source_ip_persistence-Ready s b h = elim (Bool-cases (s.type == "SOURCE_IP")) [
    | inr other ↦ rw other h
    | inl source_ip ↦
        elim (Bool-cases (eqb s.persistence_timeout 0 && s.persistence_granularity == "")) [
          | inl plain ↦
              let (within, (i, _, e, t, c, v)) = h in
              rw (source_ip, plain) (within, (i, (tt, tt), e, t, c, v))
          | inr timed ↦
              rw (source_ip, timed)
                (persist-Ready
                  (get_source_ip w.hashing s.persistence_timeout s.persistence_granularity) refl b
                  h)
        ]
  ]

  set_persistence-Ready :
      (p : Pool) (s : Option SessionPersistence) (b : Build)
      → Ready b
      → Ready (set_persistence w p s b)
  unfolding set_persistence
  set_persistence-Ready p none b h = h
  set_persistence-Ready p (some s) b h = elim (Bool-cases (is_http_type b.args)) [
    | inl http ↦ rw http (source_ip_persistence-Ready s _ (http_persistence-Ready p s b h))
    | inr other ↦ rw other (source_ip_persistence-Ready s b h)
  ]

  pub pool_persistence-Ready :
      (p : Option Pool) (b : Build) → Ready b → Ready (pool_persistence w p b)
  unfolding pool_persistence
  pool_persistence-Ready none b h = h
  pool_persistence-Ready (some p) b h = set_persistence-Ready p p.session_persistence b h

  apply_esd-Ready : (e : Option Esd) (b : Build) → Ready b → Ready (apply_esd e b)
  unfolding apply_esd apply_args
  apply_esd-Ready none b h = h
  apply_esd-Ready (some e) b h =
      with_device_irules-Ready (get_esd_entities (type_text b.args) e).irules b h

  pub apply_tags-Ready : (ts : List String) (b : Build) → Ready b → Ready (apply_tags w ts b)
  unfolding apply_tags
  apply_tags-Ready [] b h = h
  apply_tags-Ready (t ∷ ts) b h = apply_tags-Ready ts _ (apply_esd-Ready (w.get_esd t) b h)

  pub apply_policies-Ready :
      (ps : List L7Policy) (b : Build) → Ready b → Ready (apply_policies w ps b)
  unfolding apply_policies
  apply_policies-Ready [] b h = h
  apply_policies-Ready (p ∷ ps) b h =
      apply_policies-Ready ps _ (apply_esd-Ready (w.get_esd p.name) b h)

  pub add_policy-Ready :
      (l : Listener) (ps : List L7Policy) (b : Build) → Ready b → Holds Ready (add_policy l ps b)
  unfolding add_policy
  add_policy-Ready l [] b h = h
  add_policy-Ready l (p ∷ ps) b h =
      Holds-if Ready (is_type "Service_UDP" b.args) _ _ h
        (Holds-and_then_any Ready (get_endpoint_policy (p ∷ ps)) _ (λ policy. added policy))
    where
      added :
          (policy : EndpointPolicy)
          → Ready (
              extend ((wrapper_policy_name l.id, endpoint_policy policy) ∷ []) (
                set_args
                  (record b.args {
                    policy_endpoint = b.args.policy_endpoint ++ wrapper_policy_name l.id ∷ [];
                  })
                  b))
      added policy =
          let es : Entities = (wrapper_policy_name l.id, endpoint_policy policy) ∷ [] in
          let (within, (i, q, e, t, c, v)) = extend-Ready es b h (tt, tt) in
          (
            within,
            (
              i,
              q,
              All-append _ b.args.policy_endpoint _ e (
                Resolves-right b.entities es (wrapper_policy_name l.id)
                    (ground (arith, eq_refl (wrapper_policy_name l.id))),
                tt,
              ),
              t,
              c,
              v,
            ),
          )
