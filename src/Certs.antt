-- ===== src/Certs.antt =====
-- octavia_f5/restclient/as3objects/certificate.py and octavia_f5/utils/cert_manager.py: certificates
-- and secrets, taken from the key manager, as AS3 objects.
use Prim.Native.Char.{code}
use octavia_f5_provider_driv.Base.{
  String, Bool, false, not, ◌&&◌, Option, none, some, List, [], ◌∷◌, ◌++◌, ◌==◌, map, mem, eqb,
  get_last?, Result, ok, and_then, if◌then◌else◌,
}
use octavia_f5_provider_driv.Text.{concat, join, split_char, keep_chars, f5label, f5remark}

-- The TLS container and the data that octavia.common.tls_utils.cert_parser loads.
pub record TlsContainer : Type 0 where
  pub id : String
  pub certificate : String
  pub intermediates : List String
  pub private_key : String
  pub passphrase : String

pub record CertData : Type 0 where
  pub tls_cert : Option TlsContainer
  pub sni_certs : List TlsContainer

-- What the code asks of the key manager, and takes from Python's libraries. A listener or pool is
-- asked for by its `tls_certificate_id` and the container ids of its `sni_containers`.
pub record KeyManager : Type 0 where
  pub load_certificates_data : String → List String → Result CertData
  pub get_secret : String → String → Result String
  pub sha1 : String → String
  pub urlsafe_b64encode : String → String

pub record Certificate : Type 0 where
  pub remark : String
  pub certificate : String
  pub private_key : Option String
  pub passphrase : Option String

pub record CaBundle : Type 0 where
  pub remark : String
  pub label : String
  pub bundle : String

-- text.replace('\r', '')
abbrev pub drop_returns : String → String
drop_returns s = keep_chars (λ c. not (eqb (code c) 13)) s

abbrev pub starts_line : String → Bool
starts_line String.[] = false
starts_line (String.◌∷◌ c s) = eqb (code c) 10

-- text.replace(' \n', '\n')
trim_lines : String → String
trim_lines String.[] = String.[]
trim_lines (String.◌∷◌ c s) =
    let rest = trim_lines s in if eqb (code c) 32 && starts_line s then rest else String.◌∷◌ c rest

-- `_decode`
decode : String → String
unfolding trim_lines
decode pem = trim_lines (drop_returns pem)

-- The loop over the intermediate certificates.
pub add_intermediates : List String → List String → List String
unfolding decode
add_intermediates certificates [] = certificates
add_intermediates certificates (i ∷ is) =
    add_intermediates
      (if mem (decode i) certificates then certificates else certificates ++ decode i ∷ []) is

module _ (k : KeyManager) where
  unfoldable pub get_certificate : String → TlsContainer → Certificate
  unfolding add_intermediates decode join f5remark
  get_certificate remark c = record {
    remark = f5remark remark;
    certificate = join "\n" (add_intermediates (decode c.certificate ∷ []) c.intermediates);
    private_key = if c.private_key == "" then none else some (decode c.private_key);
    passphrase = if c.passphrase == "" then none else some (k.urlsafe_b64encode c.passphrase);
  }

  unfoldable pub get_ca_bundle : String → String → String → CaBundle
  unfolding f5label f5remark
  get_ca_bundle bundle remark label = record {
    remark = f5remark remark;
    label = f5label label;
    bundle = drop_returns bundle;
  }

  -- ref.split('/')[-1]
  last_part : Option String → String
  last_part none = ""
  last_part (some s) = s

  container_id : String → String
  unfolding last_part split_char
  container_id ref = last_part (get_last? (split_char "/" ref))

  container_ids : String → List String → List String
  unfolding container_id
  container_ids tls_certificate_id sni_containers =
      (if tls_certificate_id == "" then [] else container_id tls_certificate_id ∷ [])
      ++ map container_id sni_containers

  abbrev pub certificate_id : TlsContainer → String
  certificate_id c = concat "cert_" c.id

  loaded : String → CertData → List (String × Certificate)
  unfolding get_certificate
  loaded remark d =
      elim d.tls_cert [ none ↦ [] | some c ↦ (certificate_id c, get_certificate remark c) ∷ [] ]
      ++ map (λ c. (certificate_id c, get_certificate remark c)) d.sni_certs

  -- The certificates of a listener or pool, the TLS default certificate first.
  unfoldable pub get_certificates : String → List String → Result (List (String × Certificate))
  unfolding loaded container_ids join
  get_certificates tls_certificate_id sni_containers =
      let ids = container_ids tls_certificate_id sni_containers in
      and_then (k.load_certificates_data tls_certificate_id sni_containers)
        (λ d. ok (loaded (concat "Container " (join ", " ids)) d))

  -- The secret's name, and the secret; the callers pass a reference that is not empty.
  unfoldable pub load_secret : String → String → Result (String × String)
  load_secret project_id secret_ref =
      and_then (k.get_secret project_id secret_ref)
        (λ secret. ok (concat "secret_" (k.sha1 secret), secret))
