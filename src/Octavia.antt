-- ===== src/Octavia.antt =====
-- The Octavia data models that the driver reads. Octavia itself is a library of the program; the
-- records hold the fields that the driver's code uses. A text that may be None is "" where the code
-- only tests its truth.
use octavia_f5_provider_driv.Base.{ℕ, String, Bool, true, false, Option, List, ◌==◌, if◌then◌else◌}

pub data ProvisioningStatus : Type 0 where
  active pending_create pending_update pending_delete error deleted : ProvisioningStatus

pub data OperatingStatus : Type 0 where
  online offline degraded error draining no_monitor : OperatingStatus

-- `a or b` on texts
abbrev pub or_else : String → String → String
or_else a b = if a == "" then b else a

abbrev pub is_pending_delete : ProvisioningStatus → Bool
is_pending_delete ProvisioningStatus.pending_delete = true
is_pending_delete _ = false

abbrev pub is_pending_create : ProvisioningStatus → Bool
is_pending_create ProvisioningStatus.pending_create = true
is_pending_create _ = false

-- `'PENDING' in provisioning_status`
abbrev pub is_pending : ProvisioningStatus → Bool
is_pending ProvisioningStatus.pending_create = true
is_pending ProvisioningStatus.pending_update = true
is_pending ProvisioningStatus.pending_delete = true
is_pending _ = false

pub record HealthMonitor : Type 0 where
  pub id : String
  pub name : String
  pub provisioning_status : ProvisioningStatus
  pub type : String
  pub delay : ℕ
  pub fall_threshold : ℕ
  pub domain_name : String
  pub http_version : String
  pub http_method : String
  pub url_path : String
  pub expected_codes : String

pub record Member : Type 0 where
  pub id : String
  pub provisioning_status : ProvisioningStatus
  pub ip_address : String
  pub protocol_port : ℕ
  pub weight : ℕ
  pub backup : Bool
  pub enabled : Bool
  pub monitor_address : String
  pub monitor_port : ℕ

pub record SessionPersistence : Type 0 where
  pub type : String
  pub cookie_name : String
  pub persistence_timeout : ℕ
  pub persistence_granularity : String

pub record Pool : Type 0 where
  pub id : String
  pub name : String
  pub description : String
  pub provisioning_status : ProvisioningStatus
  pub protocol : String
  pub lb_algorithm : String
  pub tls_enabled : Bool
  pub tls_ciphers : String
  pub tls_versions : List String
  pub tls_certificate_id : String
  pub sni_containers : List String
  pub ca_tls_certificate_id : String
  pub session_persistence : Option SessionPersistence
  pub members : List Member
  pub health_monitor : Option HealthMonitor

pub record L7Rule : Type 0 where
  pub id : String
  pub provisioning_status : ProvisioningStatus
  pub type : String
  pub compare_type : String
  pub key : String
  pub value : String
  pub invert : Bool

pub record L7Policy : Type 0 where
  pub id : String
  pub name : String
  pub description : String
  pub provisioning_status : ProvisioningStatus
  pub action : String
  pub redirect_pool_id : String
  pub redirect_url : String
  pub redirect_prefix : String
  pub l7rules : List L7Rule

-- `connection_limit` is an integer in the database; -1 stands for no limit, and so does 0 here.
pub record Listener : Type 0 where
  pub id : String
  pub name : String
  pub description : String
  pub provisioning_status : ProvisioningStatus
  pub protocol : String
  pub protocol_port : ℕ
  pub connection_limit : ℕ
  pub default_pool : Option Pool
  pub allowed_cidrs : List String
  pub alpn_protocols : List String
  pub insert_headers : List String
  pub tags : List String
  pub tls_ciphers : String
  pub tls_versions : List String
  pub tls_certificate_id : String
  pub sni_containers : List String
  pub client_ca_tls_certificate_id : String
  pub client_authentication : String
  pub l7policies : List L7Policy

pub record Vip : Type 0 where
  pub ip_address : String
  pub network_id : String
  pub subnet_id : String
  pub port_id : String

pub record LoadBalancer : Type 0 where
  pub id : String
  pub project_id : String
  pub server_group_id : String
  pub provisioning_status : ProvisioningStatus
  pub vip : Vip
  pub listeners : List Listener
  pub pools : List Pool
