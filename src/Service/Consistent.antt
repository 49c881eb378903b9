-- ===== src/Service/Consistent.antt =====
-- The profiles of a service fit its type.
use octavia_f5_provider_driv.Base.{
  String, Bool, true, false, not, ◌&&◌, ◌||◌, ◌≡◌, refl, Option, none, some, List, [], ◌∷◌, ◌++◌,
  ◌==◌, any, mem, keep, arith, eq_iff, Bool-cases, inl, inr, if_both, ok, Holds-and_then,
  Holds-and_then_any, Holds-if, Holds-returned,
}
use octavia_f5_provider_driv.Octavia.{Listener, LoadBalancer}
use octavia_f5_provider_driv.Esd.{both_sides}
use octavia_f5_provider_driv.ServiceArgs.{
  service, type_test, Environment, Args, IruleRef, same_irule, is_type, type_test, is_http_type,
  type_test,
}
use octavia_f5_provider_driv.ServiceExtras.{
  insert_headers, pool_persistence, apply_tags, apply_policies, is_endpoint_policy, add_policy,
  has_irule, is_given, is_tcp_type, default_to, distinct_irules, fall_back, set_defaults, set_snat,
}
use octavia_f5_provider_driv.Service.{finish, is_supported, build_service, add_extras, get_service}
use octavia_f5_provider_driv.Service.References.{Entities}
use octavia_f5_provider_driv.Names.{listener_name}
use octavia_f5_provider_driv.ServiceTls.{
  initial, set_type, allow_cidrs, limit_connections, link_default_pool,
}

-- No iRule stands twice.
abbrev pub is_distinct : List IruleRef → Bool
is_distinct [] = true
is_distinct (r ∷ rs) = not (any rs (λ s. same_irule s r)) && is_distinct rs

distinct_irules-is_distinct : (rs : List IruleRef) → is_distinct (distinct_irules rs) ≡ true
unfolding distinct_irules
distinct_irules-is_distinct [] = refl
distinct_irules-is_distinct (r ∷ rs) =
    elim (Bool-cases (any (distinct_irules rs) (λ s. same_irule s r))) [
      | inl there ↦ rw there (distinct_irules-is_distinct rs)
      | inr new ↦ rw new (rw new (distinct_irules-is_distinct rs))
    ]

default_to-is_given :
    {A : Type 0} (applies : Bool) (option : String) (make : String → A) (o : Option A)
    → is_given (default_to applies option make o) ≡ (is_given o || (not (option == "") && applies))
default_to-is_given applies option make none = ground arith
default_to-is_given applies option make (some a) = refl

-- The option is set and the service is of the kind, but it has no such profile.
abbrev pub lacks : {A : Type 0} → Bool → String → Option A → Bool
lacks kind option profile = (kind && not (option == "")) && not (is_given profile)

default_to-lacks :
    {A : Type 0} (kind : Bool) (option : String) (make : String → A) (o : Option A)
    → lacks kind option (default_to kind option make o) ≡ false
default_to-lacks kind option make o = rw (default_to-is_given kind option make o) (ground arith)

abbrev pub is_slow_l4 : Args → Bool
is_slow_l4 a = is_type "Service_L4" a && (has_irule a.irules || is_given a.profile_tcp)

-- The device takes no iRule and no TCP profile for an L4 service, and no iRule twice; the profiles
-- of the configuration are there.
pub record IsConsistent (w : Environment) (a : Args) : Type 0 where
  pub l4_plain : is_slow_l4 a ≡ false
  pub irules_once : is_distinct a.irules ≡ true
  pub http_profile : lacks (is_http_type a) w.conf.profile_http a.profile_http ≡ false
  pub l4_profile : lacks (is_type "Service_L4" a) w.conf.profile_l4 a.profile_l4 ≡ false
  pub tcp_profile : lacks (is_tcp_type a) w.conf.profile_tcp a.profile_tcp ≡ false
  pub udp_profile : lacks (is_type "Service_UDP" a) w.conf.profile_udp a.profile_udp ≡ false

fall_back-plain : (a : Args) → is_slow_l4 (fall_back a) ≡ false
unfolding fall_back
fall_back-plain a = elim (Bool-cases (is_slow_l4 a)) [
  | inl slow ↦ rw slow refl
  | inr plain ↦ rw (plain, plain)
]

fall_back-irules : (a : Args) → (fall_back a).irules ≡ a.irules
unfolding fall_back
fall_back-irules a = elim (Bool-cases (is_slow_l4 a)) [ inl slow ↦ rw slow | inr plain ↦ rw plain ]

l4_not_tcp :
    (t : Option String)
    → (type_test (λ u. u == "Service_L4") t
        && (type_test (λ u. u == "Service_TCP") t
            || type_test (λ u. u == "Service_Generic") t
            || type_test (λ u. u == "Service_HTTP" || u == "Service_HTTPS") t))
      ≡ false
l4_not_tcp none = refl
l4_not_tcp (some t) = elim (Bool-cases (t == "Service_L4")) [
  | inr other ↦ rw other refl
  | inl l4 ↦ rw l4 (rw ((eq_iff t "Service_L4").0 l4) refl)
]

l4_stays :
    (l4 irule tcp option kind : Bool)
    → (l4 && (irule || tcp)) ≡ false
    → (l4 && kind) ≡ false
    → (l4 && (irule || (tcp || option && kind))) ≡ false
l4_stays true irule tcp option kind p k = ground arith
l4_stays false irule tcp option kind p k = refl

module _ (w : Environment) (l : Listener) where
  set_defaults-IsConsistent :
      (a : Args)
      → is_slow_l4 a ≡ false
      → is_distinct a.irules ≡ true
      → IsConsistent w (set_defaults w l a)
  unfolding set_defaults
  set_defaults-IsConsistent a plain once = record {
    l4_plain =
        rw (default_to-is_given (is_tcp_type a) w.conf.profile_tcp both_sides a.profile_tcp) (
          l4_stays (is_type "Service_L4" a) (has_irule a.irules) (is_given a.profile_tcp)
            (not (w.conf.profile_tcp == "")) (is_tcp_type a) plain (l4_not_tcp a.servicetype));
    irules_once = once;
    http_profile = default_to-lacks (is_http_type a) w.conf.profile_http (λ p. p) a.profile_http;
    l4_profile = default_to-lacks (is_type "Service_L4" a) w.conf.profile_l4 (λ p. p) a.profile_l4;
    tcp_profile = default_to-lacks (is_tcp_type a) w.conf.profile_tcp both_sides a.profile_tcp;
    udp_profile =
        default_to-lacks (is_type "Service_UDP" a) w.conf.profile_udp (λ p. p) a.profile_udp;
  }

  kept : {a : Args} {s : Option String} → IsConsistent w a → IsConsistent w (record a { snat = s })
  kept h = record {
    l4_plain = h.l4_plain;
    irules_once = h.irules_once;
    http_profile = h.http_profile;
    l4_profile = h.l4_profile;
    tcp_profile = h.tcp_profile;
    udp_profile = h.udp_profile;
  }

  set_snat-IsConsistent : (a : Args) → IsConsistent w a → IsConsistent w (set_snat w l a)
  unfolding set_snat
  set_snat-IsConsistent a h =
      if_both (IsConsistent w) (mem "ccloud_special_l4_deactivate_snat" l.tags) _ _ (kept h)
        (if_both (IsConsistent w) w.conf.snat_virtual _ _ (kept h) h)

  finish-IsConsistent : (a : Args) → IsConsistent w (finish w l a)
  unfolding finish
  finish-IsConsistent a =
      let b = record a { irules = distinct_irules a.irules } in
      set_snat-IsConsistent _ (
        set_defaults-IsConsistent (fall_back b) (fall_back-plain b)
          (rw (fall_back-irules b) (distinct_irules-is_distinct a.irules)))

  -- The service that stands last, and its arguments.
  abbrev pub EndsConsistent : Entities → Type 0
  EndsConsistent es =
      (front : Entities) × (a : Args) × (es ≡ front ++ (listener_name l.id, service a) ∷ [])
      × IsConsistent w a

  -- What `get_service` returns ends with the listener's service. An L4 service has neither iRules nor a
  -- TCP profile; no iRule stands twice in any service; and an HTTP, L4, TCP or UDP service has the
  -- profile of its kind, if the configuration names one.
  pub get_service-EndsConsistent :
      (lb : LoadBalancer) (es : Entities) → get_service w lb l ≡ ok es → EndsConsistent es
  unfolding get_service build_service add_extras
  get_service-EndsConsistent lb es e =
      Holds-returned EndsConsistent (get_service w lb l) es
        (Holds-and_then (λ b. IsConsistent w b.args) EndsConsistent (build_service w lb l) _
          (Holds-and_then_any (λ b. IsConsistent w b.args)
            (set_type w lb.project_id l (initial w lb l)) _
            (λ b.
              Holds-and_then_any (λ b. IsConsistent w b.args)
                (link_default_pool w lb.project_id l l.default_pool
                  (limit_connections l (allow_cidrs w l b)))
                _
                (λ c.
                  Holds-and_then_any (λ b. IsConsistent w b.args) (insert_headers l c) _
                    (λ d.
                      Holds-and_then_any (λ b. IsConsistent w b.args)
                        (add_policy l (keep (is_endpoint_policy w) l.l7policies) (
                          apply_policies w l.l7policies
                            (apply_tags w l.tags (pool_persistence w l.default_pool d))))
                        _ (λ b. finish-IsConsistent b.args)))))
          (λ b h.
            Holds-if EndsConsistent (is_supported b.args.servicetype)
              (ok (b.entities ++ (listener_name l.id, service b.args) ∷ [])) _
              (b.entities, b.args, refl, h) tt))
        e
