-- ===== src/Irules.antt =====
-- octavia_f5/restclient/as3objects/irule.py and persist.py: the iRules and persistence profiles that
-- a service is declared with. An iRule stands for the constant that holds its text.
use octavia_f5_provider_driv.Base.{
  ℕ, String, Option, none, some, List, [], ◌∷◌, ◌++◌, ◌==◌, eqb, mem, if◌then◌else◌,
}
use octavia_f5_provider_driv.Text.{concat}

pub data Irule : Type 0 where
  proxy_protocol_initiator : Irule
  app_cookie_session_persist : (cookie : String) → Irule
  x_forwarded_for x_forwarded_port x_forwarded_proto : Irule
  x_ssl_client_verify x_ssl_client_has_cert x_ssl_client_issuer x_ssl_client_dn : Irule
  x_ssl_client_cn x_ssl_client_sha1 x_ssl_client_not_before x_ssl_client_not_after : Irule

unfoldable pub get_proxy_irule : String × Irule
get_proxy_irule = ("irule_proxy_protocol_initiator", proxy_protocol_initiator)

unfoldable pub get_app_cookie_irule : String → String × Irule
get_app_cookie_irule cookie_name =
    (concat "irule_app_cookie_" cookie_name, app_cookie_session_persist cookie_name)

-- `insert_headers.get(header, False)`: the headers that are set to a true value.
header_irule : List String → String → String → Irule → List (String × Irule)
header_irule headers header name irule = if mem header headers then (name, irule) ∷ [] else []

unfoldable pub get_header_irules : List String → List (String × Irule)
unfolding header_irule
get_header_irules headers =
    header_irule headers "X-Forwarded-For" "irule_x_forwarded_for" x_forwarded_for
    ++ header_irule headers "X-Forwarded-Port" "irule_x_forwarded_port" x_forwarded_port
    ++ header_irule headers "X-Forwarded-Proto" "irule_x_forwarded_proto" x_forwarded_proto
    ++ header_irule headers "X-SSL-Client-Verify" "irule_x_ssl_client_verify" x_ssl_client_verify
    ++ header_irule headers "X-SSL-Client-Has-Cert" "irule_x_ssl_client_has_cert"
        x_ssl_client_has_cert
    ++ header_irule headers "X-SSL-Client-DN" "irule_x_ssl_client_dn" x_ssl_client_dn
    ++ header_irule headers "X-SSL-Client-CN" "irule_x_ssl_client_cn" x_ssl_client_cn
    ++ header_irule headers "X-SSL-Issuer" "irule_x_ssl_client_issuer" x_ssl_client_issuer
    ++ header_irule headers "X-SSL-Client-SHA1" "irule_x_ssl_client_sha1" x_ssl_client_sha1
    ++ header_irule headers "X-SSL-Client-Not-Before" "irule_x_ssl_client_not_before"
        x_ssl_client_not_before
    ++ header_irule headers "X-SSL-Client-Not-After" "irule_x_ssl_client_not_after"
        x_ssl_client_not_after

-- The arguments of the Persist class.
pub record Persist : Type 0 where
  pub persistence_method : String
  pub irule : Option String
  pub duration : Option ℕ
  pub address_mask : Option String

-- What the code takes from Python: `str` of a number, and the hex digest of hashlib's md5.
pub record Hashing : Type 0 where
  pub str : ℕ → String
  pub md5 : String → String

-- A timeout 0 and a granularity "" are not set.
unfoldable pub get_source_ip : Hashing → ℕ → String → String × Persist
get_source_ip h timeout granularity =
    let digested = concat (if eqb timeout 0 then "" else h.str timeout) granularity in
    (
      concat "persist_" (h.md5 digested),
      record {
        persistence_method = "source-address";
        irule = none;
        duration = if eqb timeout 0 then none else some timeout;
        address_mask = if granularity == "" then none else some granularity;
      },
    )

unfoldable pub get_app_cookie : String → String × Persist
get_app_cookie cookie_name = (
  concat "persist_app_cookie_" cookie_name,
  record {
    persistence_method = "universal";
    irule = some (concat "irule_app_cookie_" cookie_name);
    duration = some 3600;
    address_mask = none;
  },
)
