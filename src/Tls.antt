-- ===== src/Tls.antt =====
-- octavia_f5/restclient/as3objects/tls.py: the TLS objects of a listener and of a pool.
use octavia_f5_provider_driv.Base.{
  String, Bool, true, false, Option, none, some, List, [], ◌∷◌, ◌==◌, mem, Result, ok, err,
  key_error, and_then, if◌then◌else◌,
}
use octavia_f5_provider_driv.Octavia.{Listener, Pool}
use octavia_f5_provider_driv.Text.{join, split_char}
use octavia_f5_provider_driv.Ciphers.{distinct, Validate, rejected_cipher_suites, remove_each}

-- The cipher suites of a text that are not rejected, as a text; nothing calls it.
pub filter_cipher_suites : Validate → String → Result String
unfolding rejected_cipher_suites remove_each join split_char
filter_cipher_suites v suites =
    and_then (remove_each (rejected_cipher_suites v suites) (split_char ":" suites))
      (λ kept. ok (join ":" kept))

-- The options of the configuration groups f5_tls_server and f5_tls_client; `none` is None.
pub record TlsOptions : Type 0 where
  pub forward_proxy_bypass : Option Bool
  pub forward_proxy : Option Bool
  pub insert_empty_fragments : Option Bool
  pub single_use_dh : Option Bool
  pub cache_certificate : Option Bool
  pub stapler_ocsp : Option Bool

-- Which versions are enabled: SSLv3, TLSv1, TLSv1.1 and TLSv1.2.
pub record Versions : Type 0 where
  pub ssl : Bool
  pub tls1_0 : Bool
  pub tls1_1 : Bool
  pub tls1_2 : Bool

unfoldable pub get_versions : List String → List String → Versions
get_versions [] defaults = record {
  ssl = mem "SSLv3" defaults;
  tls1_0 = mem "TLSv1" defaults;
  tls1_1 = mem "TLSv1.1" defaults;
  tls1_2 = mem "TLSv1.2" defaults;
}
get_versions (v ∷ vs) _ = record {
  ssl = mem "SSLv3" (v ∷ vs);
  tls1_0 = mem "TLSv1" (v ∷ vs);
  tls1_1 = mem "TLSv1.1" (v ∷ vs);
  tls1_2 = mem "TLSv1.2" (v ∷ vs);
}

-- The client's certificate authority, and the mode.
pub record Authentication : Type 0 where
  pub trust_ca : String
  pub mode : String

pub record TlsServer : Type 0 where
  pub certificates : List String
  pub cipher_group : String
  pub authentication : Option Authentication
  pub options : TlsOptions
  pub versions : Versions
  pub renegotiation_enabled : Bool

-- The client has no option for caching and OCSP stapling.
pub record TlsClient : Type 0 where
  pub cipher_group : String
  pub trust_ca : Option String
  pub validate_certificate : Bool
  pub client_certificate : Option String
  pub options : TlsOptions
  pub versions : Versions
  pub renegotiation_enabled : Bool

-- mode_map
unfoldable pub authentication_mode : String → Result String
authentication_mode m =
    if m == "NONE"
    then ok "ignore"
    else if m == "OPTIONAL"
    then ok "request"
    else if m == "MANDATORY"
    then ok "require"
    else err key_error

unfoldable pub authentication_of : String → Option String → Result (Option Authentication)
unfolding authentication_mode
authentication_of client_authentication none = ok none
authentication_of client_authentication (some ca) =
    and_then (authentication_mode client_authentication)
      (λ m. ok (some (record { trust_ca = ca; mode = m })))

-- The group and the options are those of the configuration; the callers pass a cipher group.
unfoldable pub get_tls_server :
    TlsOptions
    → List String
    → List String
    → Listener
    → Option String
    → Bool
    → String
    → Result TlsServer
unfolding authentication_of distinct get_versions
get_tls_server options default_versions certificate_ids listener authentication_ca
      allow_renegotiation cipher_group =
    and_then (authentication_of listener.client_authentication authentication_ca) (λ authentication.
      ok (record {
        certificates = distinct certificate_ids;
        cipher_group = cipher_group;
        authentication = authentication;
        options = options;
        versions = get_versions listener.tls_versions default_versions;
        renegotiation_enabled = allow_renegotiation;
      }))

-- `crl_file` is None in the only call.
unfoldable pub get_tls_client :
    TlsOptions → List String → Pool → Option String → Option String → Bool → String → TlsClient
unfolding get_versions
get_tls_client options default_versions pool trust_ca client_cert allow_renegotiation cipher_group =
    record {
      cipher_group = cipher_group;
      trust_ca = trust_ca;
      validate_certificate = elim trust_ca [ none ↦ false | some _ ↦ true ];
      client_certificate = client_cert;
      options = record options { cache_certificate = none; stapler_ocsp = none };
      versions = get_versions pool.tls_versions default_versions;
      renegotiation_enabled = allow_renegotiation;
    }
