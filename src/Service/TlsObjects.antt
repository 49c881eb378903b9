-- ===== src/Service/TlsObjects.antt =====
-- The TLS objects of a listener and of a pool refer to each other only.
use octavia_f5_provider_driv.Base.{
  String, Bool, not, Option, none, some, List, [], ◌∷◌, ◌++◌, map, mem, All, All-append, All-weaken,
  arith, eq_refl, Bool-cases, inl, inr, Result, ok, err, and_then, Holds, Holds-and_then,
  Holds-and_then_any,
}
use octavia_f5_provider_driv.Octavia.{or_else, Listener, Pool}
use octavia_f5_provider_driv.Names.{tls_listener_name, tls_pool_name}
use octavia_f5_provider_driv.Ciphers.{get_cipher_rule_and_group, RuleAndGroup, distinct}
use octavia_f5_provider_driv.Certs.{get_certificates, Certificate, CaBundle}
use octavia_f5_provider_driv.Tls.{
  get_tls_client, TlsServer, get_versions, TlsOptions, get_tls_server, authentication_of,
  authentication_mode,
}
use octavia_f5_provider_driv.ServiceArgs.{Environment, Entity, certificate, tls_server, tls_client}
use octavia_f5_provider_driv.ServiceTls.{
  load_client_ca, load_trust_ca, is_http2, with_ca, with_ciphers, certificate_entities, ca_entities,
  ca_name, first_name, single, listener_tls, pool_tls,
}
use octavia_f5_provider_driv.Service.References.{
  Entities, Resolves, of_option, RefsIn, Within, Resolves-left, Resolves-right,
}

distinct-Resolves :
    (es : Entities) (ns : List String) → All (Resolves es) ns → All (Resolves es) (distinct ns)
unfolding distinct
distinct-Resolves es [] h = tt
distinct-Resolves es (n ∷ ns) h = elim (Bool-cases (mem n (distinct ns))) [
  | inl there ↦ rw there (distinct-Resolves es ns h.1)
  | inr new ↦ rw new (h.0, distinct-Resolves es ns h.1)
]

certificates_resolve :
    (cs : List (String × Certificate))
    → All (Resolves (certificate_entities cs)) (map (λ c. c.0) cs)
certificates_resolve [] = tt
certificates_resolve (c ∷ cs) =
    let head : Entities = (c.0, certificate c.1) ∷ [] in
    (
      ground (arith, eq_refl c.0),
      All-weaken (Resolves (certificate_entities cs)) _ (map (λ c. c.0) cs)
          (Resolves-right head (certificate_entities cs)) (certificates_resolve cs),
    )

certificates-Within :
    (es : Entities) (cs : List (String × Certificate)) → Within es (certificate_entities cs)
certificates-Within es [] = tt
certificates-Within es (c ∷ cs) = (tt, certificates-Within es cs)

ca-Within : (es : Entities) (ca : Option (String × CaBundle)) → Within es (ca_entities ca)
ca-Within es none = tt
ca-Within es (some c) = (tt, tt)

ca-Resolves :
    (ca : Option (String × CaBundle)) → All (Resolves (ca_entities ca)) (of_option (ca_name ca))
ca-Resolves none = tt
ca-Resolves (some c) = (ground (arith, eq_refl c.0), tt)

abbrev Ca : Type 0
Ca = Option (String × CaBundle)

-- The CA's bundle, the ciphers, the TLS object and what follows it.
module _ (ca : Ca) (g : RuleAndGroup) (object : String × Entity) (tail : Entities) where
  abbrev objects : Entities
  objects = with_ca ca g (object ∷ tail)

  abbrev after_ca : Entities
  after_ca = with_ciphers g (object ∷ tail)

  objects_right : (n : String) → Resolves after_ca n → Resolves objects n
  objects_right = Resolves-right (ca_entities ca) after_ca

  objects_group : Resolves objects g.group_name
  objects_group = objects_right g.group_name (ground (arith, eq_refl g.group_name))

  objects_rule : Resolves objects g.rule_name
  objects_rule = objects_right g.rule_name (ground (arith, eq_refl g.rule_name))

  objects_object : Resolves objects object.0
  objects_object = objects_right object.0 (ground (arith, eq_refl object.0))

  objects_ca : All (Resolves objects) (of_option (ca_name ca))
  objects_ca =
      All-weaken (Resolves (ca_entities ca)) (Resolves objects) (of_option (ca_name ca))
        (Resolves-left (ca_entities ca) after_ca) (ca-Resolves ca)

  objects_tail : (ns : List String) → All (Resolves tail) ns → All (Resolves objects) ns
  objects_tail ns h =
      All-weaken (Resolves tail) (Resolves objects) ns (λ n t. objects_right n (ground arith)) h

  objects-Within : RefsIn objects object.1 → Within objects tail → Within objects objects
  objects-Within h t =
      All-append (λ (e : String × Entity). RefsIn objects e.1) (ca_entities ca) after_ca
        (ca-Within objects ca) (tt, (objects_rule, (h, t)))

-- The server refers to objects that are declared with it, whatever its other properties are.
server_refs :
    (es : TlsServer → Entities) (o : TlsOptions) (vs ids : List String) (l : Listener)
    (ca : Option String) (b : Bool) (group : String)
    → ((s : TlsServer) → All (Resolves (es s)) ids)
    → ((s : TlsServer) → Resolves (es s) group)
    → ((s : TlsServer) → All (Resolves (es s)) (of_option ca))
    → Holds (λ s. RefsIn (es s) (tls_server s)) (get_tls_server o vs ids l ca b group)
unfolding get_tls_server authentication_of
server_refs es o vs ids l none b group hi hg hc = (distinct-Resolves (es _) ids (hi _), hg _, tt)
server_refs es o vs ids l (some ca) b group hi hg hc =
    with_mode (authentication_mode l.client_authentication)
  where
    with_mode :
        (r : Result String)
        → Holds
            (λ s. RefsIn (es s) (tls_server s))
            (and_then
              (and_then r (λ m. ok (some (record { trust_ca = ca; mode = m }))))
              (λ authentication. ok (record {
                certificates = distinct ids;
                cipher_group = group;
                authentication = authentication;
                options = o;
                versions = get_versions l.tls_versions vs;
                renegotiation_enabled = b;
              })))
    with_mode (ok m) = (distinct-Resolves (es _) ids (hi _), hg _, hc _)
    with_mode (err e) = tt

-- Objects that refer to each other only, and declare the name.
abbrev pub IsSelfContained : String → Entities → Type 0
IsSelfContained name es = Within es es × Resolves es name

module _ (w : Environment) (project_id : String) (l : Listener) where
  pub listener_tls-IsSelfContained :
      Holds (IsSelfContained (tls_listener_name l.id)) (listener_tls w project_id l)
  unfolding listener_tls
  listener_tls-IsSelfContained =
      Holds-and_then_any (IsSelfContained (tls_listener_name l.id))
        (get_certificates w.keys l.tls_certificate_id l.sni_containers) _
        (λ certs.
          Holds-and_then_any (IsSelfContained (tls_listener_name l.id))
            (load_client_ca w project_id l) _
            (λ ca.
              Holds-and_then_any (IsSelfContained (tls_listener_name l.id))
                (get_cipher_rule_and_group w.validate
                  (or_else l.tls_ciphers w.conf.default_listener_ciphers) "Listener" l.id)
                _
                (λ group.
                  let obj : TlsServer → String × Entity =
                    λ s. (tls_listener_name l.id, tls_server s) in
                  let tail = certificate_entities certs in
                  let objs : TlsServer → Entities = λ s. objects ca group (obj s) tail in
                  Holds-and_then (λ s. RefsIn (objs s) (tls_server s))
                    (IsSelfContained (tls_listener_name l.id))
                    (get_tls_server w.conf.tls_server w.conf.default_listener_tls_versions
                      (map (λ c. c.0) certs) l (ca_name ca) (not (is_http2 l)) group.group_name)
                    _
                    (server_refs objs w.conf.tls_server w.conf.default_listener_tls_versions
                      (map (λ c. c.0) certs) l (ca_name ca) (not (is_http2 l)) group.group_name
                      (λ s. objects_tail ca group (obj s) tail _ (certificates_resolve certs))
                      (λ s. objects_group ca group (obj s) tail)
                      (λ s. objects_ca ca group (obj s) tail))
                    (λ s h. done ca group (obj s) certs h))))
    where
      done :
          (ca : Ca) (g : RuleAndGroup) (o : String × Entity) (certs : List (String × Certificate))
          → RefsIn (objects ca g o (certificate_entities certs)) o.1
          → IsSelfContained o.0 (objects ca g o (certificate_entities certs))
      done ca g o certs h =
          (objects-Within ca g o _ h (certificates-Within _ certs), objects_object ca g o _)

single_names :
    (cs : List (String × Certificate))
    → All (Resolves (certificate_entities (single cs))) (of_option (first_name (single cs)))
single_names [] = tt
single_names (c ∷ []) = (ground (arith, eq_refl c.0), tt)
single_names (c ∷ d ∷ cs) = tt

module _ (w : Environment) (project_id : String) (l : Listener) (p : Pool) where
  pub pool_tls-IsSelfContained :
      Holds (IsSelfContained (tls_pool_name p.id)) (pool_tls w project_id l p)
  unfolding pool_tls get_tls_client
  pool_tls-IsSelfContained =
      Holds-and_then_any (IsSelfContained (tls_pool_name p.id))
        (get_certificates w.keys p.tls_certificate_id p.sni_containers) _
        (λ certs.
          Holds-and_then_any (IsSelfContained (tls_pool_name p.id)) (load_trust_ca w project_id p) _
            (λ ca.
              Holds-and_then_any (IsSelfContained (tls_pool_name p.id))
                (get_cipher_rule_and_group w.validate
                  (or_else p.tls_ciphers w.conf.default_pool_ciphers) "Pool" p.id)
                _
                (λ group.
                  let client =
                    get_tls_client w.conf.tls_client w.conf.default_pool_tls_versions p (ca_name ca)
                      (first_name (single certs)) (not (is_http2 l)) group.group_name in
                  let obj : String × Entity = (tls_pool_name p.id, tls_client client) in
                  let front = certificate_entities (single certs) in
                  let back = objects ca group obj [] in
                  let left = Resolves-left front back in
                  let right = Resolves-right front back in
                  let refs : RefsIn (front ++ back) obj.1 = (
                    right group.group_name (objects_group ca group obj []),
                    All-weaken (Resolves back) (Resolves (front ++ back)) (of_option (ca_name ca))
                        right (objects_ca ca group obj []),
                    All-weaken (Resolves front) (Resolves (front ++ back))
                        (of_option (first_name (single certs))) left (single_names certs),
                  ) in
                  (
                    All-append (λ (e : String × Entity). RefsIn (front ++ back) e.1) front back
                        (certificates-Within (front ++ back) (single certs))
                        (All-append (λ (e : String × Entity). RefsIn (front ++ back) e.1)
                          (ca_entities ca) _ (ca-Within (front ++ back) ca)
                          (tt, (right group.rule_name (objects_rule ca group obj []), (refs, tt)))),
                    right (tls_pool_name p.id) (objects_object ca group obj []),
                  ))))
