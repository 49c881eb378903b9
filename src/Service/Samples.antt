-- ===== src/Service/Samples.antt =====
-- The options and libraries of the examples, and a listener for HTTPS.
use octavia_f5_provider_driv.Base.{false, none, some, [], ◌∷◌, ok}
use octavia_f5_provider_driv.Octavia.{Listener}
use octavia_f5_provider_driv.Samples.{sample_listener}
use octavia_f5_provider_driv.Irules.{Hashing}
use octavia_f5_provider_driv.Ciphers.{Validate}
use octavia_f5_provider_driv.Certs.{TlsContainer, KeyManager}
use octavia_f5_provider_driv.Tls.{TlsOptions}
use octavia_f5_provider_driv.ServiceArgs.{ServiceConf, Environment}

abbrev no_options : TlsOptions
no_options = record {
  forward_proxy_bypass = none;
  forward_proxy = none;
  insert_empty_fragments = none;
  single_use_dh = none;
  cache_certificate = none;
  stapler_ocsp = none;
}

abbrev conf : ServiceConf
conf = record {
  service_address_icmp_echo = "";
  tcp_service_type = "Service_L4";
  irule_allowed_cidrs = "cc_allowed_cidrs";
  profile_http = "http";
  profile_http2 = "";
  profile_l4 = "fast";
  profile_tcp = "tcp";
  profile_udp = "udp";
  snat_virtual = false;
  default_listener_ciphers = "AES";
  default_pool_ciphers = "AES";
  default_listener_tls_versions = "TLSv1.2" ∷ [];
  default_pool_tls_versions = "TLSv1.2" ∷ [];
  tls_server = no_options;
  tls_client = no_options;
}

abbrev container : TlsContainer
container = record {
  id = "c";
  certificate = "pem";
  intermediates = [];
  private_key = "key";
  passphrase = "";
}

abbrev keys : KeyManager
keys = record {
  load_certificates_data = λ id sni. ok (record { tls_cert = some container; sni_certs = [] });
  get_secret = λ project ref. ok "ca";
  sha1 = λ s. s;
  urlsafe_b64encode = λ s. s;
}

abbrev validate : Validate
validate = record { check_cipher_prohibit_list = λ s. []; check_cipher_allow_list = λ s. [] }

abbrev hashing : Hashing
hashing = record { str = λ n. "n"; md5 = λ s. s }

abbrev pub environment : Environment
environment = record {
  conf = conf;
  keys = keys;
  validate = validate;
  hashing = hashing;
  get_esd = λ name. none;
}

abbrev pub https_listener : Listener
https_listener = record sample_listener {
  protocol = "TERMINATED_HTTPS";
  allowed_cidrs = "10.0.0.0/8" ∷ [];
}
