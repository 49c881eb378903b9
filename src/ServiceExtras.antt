-- ===== src/ServiceExtras.antt =====
-- The second half of `get_service` of octavia_f5/restclient/as3objects/service.py: iRules for
-- headers, persistence, ESDs, L7 policies and the profiles that are set by default.
use octavia_f5_provider_driv.Base.{
  String, Bool, true, false, not, ◌&&◌, ◌||◌, Option, none, some, List, [], ◌∷◌, ◌++◌, ◌==◌, any,
  mem, eqb, Result, ok, err, key_error, and_then, if◌then◌else◌,
}
use octavia_f5_provider_driv.Octavia.{
  Listener, Pool, SessionPersistence, L7Policy, is_pending_delete,
}
use octavia_f5_provider_driv.Text.{has_part}
use octavia_f5_provider_driv.Names.{wrapper_policy_name}
use octavia_f5_provider_driv.Irules.{
  get_app_cookie_irule, get_header_irules, get_source_ip, get_app_cookie,
}
use octavia_f5_provider_driv.Policy.{get_endpoint_policy}
use octavia_f5_provider_driv.Esd.{Esd, EsdArgs, both_sides, get_esd_entities}
use octavia_f5_provider_driv.ServiceTls.{is_http2}
use octavia_f5_provider_driv.ServiceArgs.{
  Environment, Args, Build, IruleRef, same_irule, builtin, pointer, irule, persist, endpoint_policy,
  extend, set_args, is_type, is_http_type, with_irules, with_device_irules,
}

-- The first place that reads the type: KeyError if there is none.
unfoldable pub typed_headers : Option String → Listener → Build → Result Build
unfolding get_header_irules
typed_headers none l b = err key_error
typed_headers (some t) l b =
    ok (if is_http_type b.args then with_irules (get_header_irules l.insert_headers) b else b)

unfoldable pub insert_headers : Listener → Build → Result Build
unfolding typed_headers
insert_headers l b = typed_headers b.args.servicetype l b

abbrev fallback_of : Pool → Option String → Option String
fallback_of p old = if p.lb_algorithm == "SOURCE_IP" then some "source-address" else old

-- An iRule for the cookie, and a universal persistence profile that refers to it. The cookie's name
-- is used as it is: the code drops the result of `replace`.
unfoldable pub app_cookie : Pool → SessionPersistence → Build → Build
unfolding get_app_cookie_irule get_app_cookie
app_cookie p s b =
    let rule = get_app_cookie_irule s.cookie_name in
    let profile = get_app_cookie s.cookie_name in
    extend ((rule.0, irule rule.1) ∷ (profile.0, persist profile.1) ∷ []) (
      set_args
        (record b.args {
          persistence_methods = pointer profile.0 ∷ [];
          fallback_persistence_method = fallback_of p b.args.fallback_persistence_method;
        })
        b)

unfoldable pub http_persistence : Pool → SessionPersistence → Build → Build
unfolding app_cookie
http_persistence p s b =
    if s.type == "APP_COOKIE" && not (s.cookie_name == "")
    then app_cookie p s b
    else if s.type == "HTTP_COOKIE"
    then set_args
        (record b.args {
          persistence_methods = builtin "cookie" ∷ [];
          fallback_persistence_method = fallback_of p b.args.fallback_persistence_method;
        })
        b
    else b

-- An entry that the ESD has replaces the one that is there.
abbrev pub override : {A : Type 0} → Option A → Option A → Option A
override none old = old
override (some a) old = some a

unfoldable pub apply_args : EsdArgs → Build → Build
apply_args e b = with_device_irules e.irules (
    set_args
      (record b.args {
        profile_tcp = override e.profile_tcp b.args.profile_tcp;
        profile_l4 = override e.profile_l4 b.args.profile_l4;
        profile_multiplex = override e.profile_multiplex b.args.profile_multiplex;
        profile_http_compression =
            override e.profile_http_compression b.args.profile_http_compression;
        profile_udp = override e.profile_udp b.args.profile_udp;
      })
      b)

-- `insert_headers` has made sure that there is a type.
abbrev pub type_text : Args → String
type_text a = elim a.servicetype [ none ↦ "" | some t ↦ t ]

-- list(set(service_args['iRules']))
unfoldable pub distinct_irules : List IruleRef → List IruleRef
distinct_irules [] = []
distinct_irules (r ∷ rs) =
    let rest = distinct_irules rs in if any rest (λ s. same_irule s r) then rest else r ∷ rest

abbrev pub has_irule : List IruleRef → Bool
has_irule [] = false
has_irule (_ ∷ _) = true

abbrev pub is_given : {A : Type 0} → Option A → Bool
is_given none = false
is_given (some _) = true

-- An L4 service with iRules or a TCP profile becomes a TCP service.
unfoldable pub fall_back : Args → Args
fall_back a =
    if is_type "Service_L4" a && (has_irule a.irules || is_given a.profile_tcp)
    then record a { servicetype = some "Service_TCP"; profile_l4 = none }
    else a

-- `if CONF.x and applies: if key not in service_args`
abbrev pub default_to : {A : Type 0} → Bool → String → (String → A) → Option A → Option A
default_to applies option make (some a) = some a
default_to applies option make none =
    if not (option == "") && applies then some (make option) else none

abbrev pub is_tcp_type : Args → Bool
is_tcp_type a = is_type "Service_TCP" a || is_type "Service_Generic" a || is_http_type a

-- `_servicetype in SERVICE_HTTPS` asks whether it is a part of that text.
abbrev part_of_https : Args → Bool
part_of_https a = has_part (type_text a) "Service_HTTPS"

unfoldable pub apply_esd : Option Esd → Build → Build
unfolding apply_args get_esd_entities
apply_esd none b = b
apply_esd (some e) b = apply_args (get_esd_entities (type_text b.args) e) b

unfoldable pub add_policy : Listener → List L7Policy → Build → Result Build
unfolding get_endpoint_policy
add_policy l [] b = ok b
add_policy l (p ∷ ps) b =
    if is_type "Service_UDP" b.args
    then ok b
    else and_then (get_endpoint_policy (p ∷ ps)) (λ policy.
      let name = wrapper_policy_name l.id in
      ok (
        extend ((name, endpoint_policy policy) ∷ [])
          (set_args (record b.args { policy_endpoint = b.args.policy_endpoint ++ name ∷ [] }) b)))

module _ (w : Environment) where
  unfoldable pub source_ip_persistence : SessionPersistence → Build → Build
  unfolding get_source_ip
  source_ip_persistence s b =
      let profile = get_source_ip w.hashing s.persistence_timeout s.persistence_granularity in
      if not (s.type == "SOURCE_IP")
      then b
      else if eqb s.persistence_timeout 0 && s.persistence_granularity == ""
      then set_args (record b.args { persistence_methods = builtin "source-address" ∷ [] }) b
      else extend ((profile.0, persist profile.1) ∷ [])
          (set_args (record b.args { persistence_methods = pointer profile.0 ∷ [] }) b)

  -- The persistence of the default pool, also of one that is being deleted.
  unfoldable pub set_persistence : Pool → Option SessionPersistence → Build → Build
  unfolding http_persistence source_ip_persistence
  set_persistence p none b = b
  set_persistence p (some s) b =
      source_ip_persistence s (if is_http_type b.args then http_persistence p s b else b)

  unfoldable pub pool_persistence : Option Pool → Build → Build
  unfolding set_persistence
  pool_persistence none b = b
  pool_persistence (some p) b = set_persistence p p.session_persistence b

  -- The loop over the tags.
  unfoldable pub apply_tags : List String → Build → Build
  unfolding apply_esd
  apply_tags [] b = b
  apply_tags (t ∷ ts) b = apply_tags ts (apply_esd (w.get_esd t) b)

  -- The loop over the policies: those named like an ESD apply it. The repository holds no empty
  -- ESD, which the code would take for none.
  unfoldable pub apply_policies : List L7Policy → Build → Build
  unfolding apply_esd
  apply_policies [] b = b
  apply_policies (p ∷ ps) b = apply_policies ps (apply_esd (w.get_esd p.name) b)

  -- The others, `endpoint_policies`.
  abbrev pub is_endpoint_policy : L7Policy → Bool
  is_endpoint_policy p = elim (w.get_esd p.name) [
    | some e ↦ false
    | none ↦ not (is_pending_delete p.provisioning_status)
  ]

  unfoldable pub set_defaults : Listener → Args → Args
  unfolding has_part
  set_defaults l a =
      let http = default_to (is_http_type a) w.conf.profile_http (λ p. p) a.profile_http in
      record a {
        profile_http = http;
        profile_http2 =
            default_to (part_of_https a && is_http2 l && is_given http) w.conf.profile_http2
              (λ p. p) a.profile_http2;
        profile_l4 = default_to (is_type "Service_L4" a) w.conf.profile_l4 (λ p. p) a.profile_l4;
        profile_tcp = default_to (is_tcp_type a) w.conf.profile_tcp both_sides a.profile_tcp;
        profile_udp =
            default_to (is_type "Service_UDP" a) w.conf.profile_udp (λ p. p) a.profile_udp;
      }

  unfoldable pub set_snat : Listener → Args → Args
  set_snat l a =
      if mem "ccloud_special_l4_deactivate_snat" l.tags
      then record a { snat = some "none" }
      else if w.conf.snat_virtual
      then record a { snat = some "self" }
      else a
