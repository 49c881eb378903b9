-- ===== src/ServiceArgs.antt =====
-- What `get_service` of octavia_f5/restclient/as3objects/service.py builds: the arguments of the
-- service, and the objects beside it.
use octavia_f5_provider_driv.Base.{
  ℕ, String, Bool, false, ◌||◌, Option, none, some, List, ◌++◌, ◌==◌, map,
}
use octavia_f5_provider_driv.Irules.{Irule, Persist, Hashing}
use octavia_f5_provider_driv.Ciphers.{Validate}
use octavia_f5_provider_driv.Certs.{KeyManager, Certificate, CaBundle}
use octavia_f5_provider_driv.Tls.{TlsOptions, TlsServer, TlsClient}
use octavia_f5_provider_driv.Policy.{EndpointPolicy}
use octavia_f5_provider_driv.Esd.{Esd, TcpProfile}

-- The configuration that the code reads; "" is an option that is not set.
pub record ServiceConf : Type 0 where
  pub service_address_icmp_echo : String
  pub tcp_service_type : String
  pub irule_allowed_cidrs : String
  pub profile_http : String
  pub profile_http2 : String
  pub profile_l4 : String
  pub profile_tcp : String
  pub profile_udp : String
  pub snat_virtual : Bool
  pub default_listener_ciphers : String
  pub default_pool_ciphers : String
  pub default_listener_tls_versions : List String
  pub default_pool_tls_versions : List String
  pub tls_server : TlsOptions
  pub tls_client : TlsOptions

-- The configuration, the libraries and the ESD repository.
pub record Environment : Type 0 where
  pub conf : ServiceConf
  pub keys : KeyManager
  pub validate : Validate
  pub hashing : Hashing
  pub get_esd : String → Option Esd

-- An item of `iRules`: one that is declared beside the service, or as3.BigIP, one of the device.
pub data IruleRef : Type 0 where
  declared_irule : (name : String) → IruleRef
  device_irule : (name : String) → IruleRef

abbrev pub same_irule : IruleRef → IruleRef → Bool
same_irule (declared_irule a) (declared_irule b) = a == b
same_irule (device_irule a) (device_irule b) = a == b
same_irule _ _ = false

-- An item of `persistenceMethods`: a name of the device, or as3.Pointer.
pub data PersistRef : Type 0 where
  builtin : (name : String) → PersistRef
  pointer : (name : String) → PersistRef

-- `virtualAddresses`: the address alone, or with a pointer to the service address of the
-- load balancer.
pub record VirtualAddress : Type 0 where
  pub address : String
  pub service_address : Option String

-- `service_args`; `none` is a key that is not set.
pub record Args : Type 0 where
  pub virtual_port : ℕ
  pub label : String
  pub virtual_addresses : VirtualAddress
  pub persistence_methods : List PersistRef
  pub irules : List IruleRef
  pub policy_endpoint : List String
  pub servicetype : Option String
  pub server_tls : Option String
  pub client_tls : Option String
  pub redirect80 : Option Bool
  pub max_connections : Option ℕ
  pub pool : Option String
  pub fallback_persistence_method : Option String
  pub profile_tcp : Option TcpProfile
  pub profile_l4 : Option String
  pub profile_multiplex : Option String
  pub profile_http : Option String
  pub profile_http2 : Option String
  pub profile_http_compression : Option String
  pub profile_udp : Option String
  pub snat : Option String

pub data Entity : Type 0 where
  service_address : (virtual_address icmp_echo : String) → Entity
  ca_bundle : CaBundle → Entity
  certificate : Certificate → Entity
  cipher_rule : (cipher_suites : List String) → Entity
  cipher_group : (rule : String) → Entity
  tls_server : TlsServer → Entity
  tls_client : TlsClient → Entity
  irule : Irule → Entity
  data_group : (cidrs : List String) → Entity
  persist : Persist → Entity
  endpoint_policy : EndpointPolicy → Entity
  service : Args → Entity

-- The local variables `service_args` and `entities`.
pub record Build : Type 0 where
  pub args : Args
  pub entities : List (String × Entity)

-- entities.extend
abbrev pub extend : List (String × Entity) → Build → Build
extend es b = record b { entities = b.entities ++ es }

abbrev pub set_args : Args → Build → Build
set_args a b = record b { args = a }

abbrev pub type_test : (String → Bool) → Option String → Bool
type_test p none = false
type_test p (some t) = p t

-- `_servicetype == t`, and whether it is one of SERVICE_HTTP_TYPES.
abbrev pub is_type : String → Args → Bool
is_type t a = type_test (λ u. u == t) a.servicetype

abbrev pub is_http_type : Args → Bool
is_http_type a = type_test (λ u. u == "Service_HTTP" || u == "Service_HTTPS") a.servicetype

abbrev pub irule_refs : List (String × Irule) → List IruleRef
irule_refs rs = map (λ r. declared_irule r.0) rs

abbrev pub irule_entities : List (String × Irule) → List (String × Entity)
irule_entities rs = map (λ r. (r.0, irule r.1)) rs

-- service_args['iRules'].append(name); entities.append((name, irule)) for each
abbrev pub with_irules : List (String × Irule) → Build → Build
with_irules rs b =
    extend (irule_entities rs)
      (set_args (record b.args { irules = b.args.irules ++ irule_refs rs }) b)

abbrev pub with_device_irules : List String → Build → Build
with_device_irules names b =
    set_args (record b.args { irules = b.args.irules ++ map (λ n. device_irule n) names }) b
