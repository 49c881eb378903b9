-- ===== src/Service/References.antt =====
-- What a service and the objects beside it refer to.
use octavia_f5_provider_driv.Base.{
  String, Bool, true, ◌≡◌, Option, none, some, List, [], ◌∷◌, ◌++◌, ◌==◌, map, any, All, All-append,
  All-weaken, any-append, arith, eq_refl,
}
use octavia_f5_provider_driv.Irules.{Irule}
use octavia_f5_provider_driv.ServiceArgs.{
  IruleRef, declared_irule, device_irule, PersistRef, builtin, pointer, Args, Entity, Build,
  service_address, ca_bundle, certificate, cipher_rule, cipher_group, tls_server, tls_client, irule,
  data_group, persist, endpoint_policy, service, extend, irule_refs, irule_entities, with_irules,
  with_device_irules,
}

abbrev pub Entities : Type 0
Entities = List (String × Entity)

abbrev pub declares : String → Entities → Bool
declares n es = any es (λ e. e.0 == n)

abbrev pub Resolves : Entities → String → Type 0
Resolves es n = declares n es ≡ true

abbrev pub of_option : Option String → List String
of_option none = []
of_option (some s) = s ∷ []

abbrev pub IruleIn : Entities → IruleRef → Type 0
IruleIn es (declared_irule n) = Resolves es n
IruleIn es (device_irule n) = Unit

abbrev pub PersistIn : Entities → PersistRef → Type 0
PersistIn es (builtin n) = Unit
PersistIn es (pointer n) = Resolves es n

-- The names that the arguments refer to, but for the pool, which the tenant declares.
abbrev pub ArgsIn : Entities → Args → Type 0
ArgsIn es a =
    All (IruleIn es) a.irules
    × All (PersistIn es) a.persistence_methods
    × All (Resolves es) a.policy_endpoint
    × All (Resolves es) (of_option a.server_tls)
    × All (Resolves es) (of_option a.client_tls)
    × All (Resolves es) (of_option a.virtual_addresses.service_address)

-- The names that an object refers to are declared.
abbrev pub RefsIn : Entities → Entity → Type 0
RefsIn es (service a) = ArgsIn es a
RefsIn es (cipher_group rule) = Resolves es rule
RefsIn es (tls_server s) =
    All (Resolves es) s.certificates
    × Resolves es s.cipher_group
    × All (Resolves es) (elim s.authentication [ none ↦ [] | some a ↦ a.trust_ca ∷ [] ])
RefsIn es (tls_client c) =
    Resolves es c.cipher_group
    × All (Resolves es) (of_option c.trust_ca)
    × All (Resolves es) (of_option c.client_certificate)
RefsIn es (persist p) = All (Resolves es) (of_option p.irule)
RefsIn es _ = Unit

abbrev pub Within : Entities → Entities → Type 0
Within es xs = All (λ e. RefsIn es e.1) xs

module _ (es more : Entities) where
  pub Resolves-left : (n : String) → Resolves es n → Resolves (es ++ more) n
  Resolves-left n h = ground (arith, any-append es more (λ e. e.0 == n))

  pub Resolves-right : (n : String) → Resolves more n → Resolves (es ++ more) n
  Resolves-right n h = ground (arith, any-append es more (λ e. e.0 == n))

-- More objects, in front or behind, do no harm.
module _ (es es' : Entities) (grow : (n : String) → Resolves es n → Resolves es' n) where
  IruleIn-grow : (r : IruleRef) → IruleIn es r → IruleIn es' r
  IruleIn-grow (declared_irule n) h = grow n h
  IruleIn-grow (device_irule n) h = tt

  PersistIn-grow : (r : PersistRef) → PersistIn es r → PersistIn es' r
  PersistIn-grow (builtin n) h = tt
  PersistIn-grow (pointer n) h = grow n h

  All-grow : (ns : List String) → All (Resolves es) ns → All (Resolves es') ns
  All-grow ns h = All-weaken (Resolves es) (Resolves es') ns grow h

  pub ArgsIn-grow : (a : Args) → ArgsIn es a → ArgsIn es' a
  ArgsIn-grow a (i, p, e, s, c, v) = (
    All-weaken (IruleIn es) (IruleIn es') a.irules IruleIn-grow i,
    All-weaken (PersistIn es) (PersistIn es') a.persistence_methods PersistIn-grow p,
    All-grow a.policy_endpoint e,
    All-grow (of_option a.server_tls) s,
    All-grow (of_option a.client_tls) c,
    All-grow (of_option a.virtual_addresses.service_address) v,
  )

  RefsIn-grow : (e : Entity) → RefsIn es e → RefsIn es' e
  RefsIn-grow (service a) h = ArgsIn-grow a h
  RefsIn-grow (cipher_group rule) h = grow rule h
  RefsIn-grow (tls_server s) (c, g, a) =
      (All-grow s.certificates c, grow s.cipher_group g, All-grow _ a)
  RefsIn-grow (tls_client c) (g, t, k) = (
    grow c.cipher_group g,
    All-grow (of_option c.trust_ca) t,
    All-grow (of_option c.client_certificate) k,
  )
  RefsIn-grow (persist p) h = All-grow (of_option p.irule) h
  RefsIn-grow (service_address a i) h = tt
  RefsIn-grow (ca_bundle c) h = tt
  RefsIn-grow (certificate c) h = tt
  RefsIn-grow (cipher_rule s) h = tt
  RefsIn-grow (irule i) h = tt
  RefsIn-grow (data_group c) h = tt
  RefsIn-grow (endpoint_policy p) h = tt

  pub Within-grow : (xs : Entities) → Within es xs → Within es' xs
  Within-grow xs h =
      All-weaken (λ e. RefsIn es e.1) (λ e. RefsIn es' e.1) xs (λ e. RefsIn-grow e.1) h

-- Between two steps of `get_service`: all that is there resolves.
abbrev pub Ready : Build → Type 0
Ready b = Within b.entities b.entities × ArgsIn b.entities b.args

-- Objects that refer to each other only, and arguments that refer to them.
pub extend-Ready : (es : Entities) (b : Build) → Ready b → Within es es → Ready (extend es b)
extend-Ready es b h new = (
  All-append _ b.entities es
      (Within-grow b.entities (b.entities ++ es) (Resolves-left b.entities es) b.entities h.0)
      (Within-grow es (b.entities ++ es) (Resolves-right b.entities es) es new),
  ArgsIn-grow b.entities (b.entities ++ es) (Resolves-left b.entities es) b.args h.1,
)

irules-Within : (es : Entities) (rs : List (String × Irule)) → Within es (irule_entities rs)
irules-Within es [] = tt
irules-Within es (r ∷ rs) = (tt, irules-Within es rs)

irules_resolve : (rs : List (String × Irule)) → All (IruleIn (irule_entities rs)) (irule_refs rs)
irules_resolve [] = tt
irules_resolve (r ∷ rs) =
    let later = irule_entities rs in
    let head : Entities = (r.0, irule r.1) ∷ [] in
    (
      ground (arith, eq_refl r.0),
      All-weaken (IruleIn later) (IruleIn (head ++ later)) (irule_refs rs)
          (IruleIn-grow later (head ++ later) (Resolves-right head later)) (irules_resolve rs),
    )

pub with_irules-Ready :
    (rs : List (String × Irule)) (b : Build) → Ready b → Ready (with_irules rs b)
with_irules-Ready rs b h =
    let es = irule_entities rs in
    let (within, (irules, p, e, s, c, v)) = extend-Ready es b h (irules-Within es rs) in
    let grown =
      All-weaken (IruleIn es) (IruleIn (b.entities ++ es)) (irule_refs rs)
        (IruleIn-grow es (b.entities ++ es) (Resolves-right b.entities es)) (irules_resolve rs) in
    (within, (All-append _ b.args.irules _ irules grown, p, e, s, c, v))

device_irules_in :
    (es : Entities) (names : List String) → All (IruleIn es) (map (λ n. device_irule n) names)
device_irules_in es [] = tt
device_irules_in es (n ∷ ns) = (tt, device_irules_in es ns)

pub with_device_irules-Ready :
    (names : List String) (b : Build) → Ready b → Ready (with_device_irules names b)
with_device_irules-Ready names b (within, (i, p, e, s, c, v)) =
    (within, (All-append _ b.args.irules _ i (device_irules_in b.entities names), p, e, s, c, v))
