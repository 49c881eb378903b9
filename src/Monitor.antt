-- ===== src/Monitor.antt =====
-- octavia_f5/restclient/as3objects/monitor.py: Octavia health monitors as AS3 monitors.
pub mod Timing
mod Examples
use Prim.Native.String.{◌++◌}
use octavia_f5_provider_driv.Base.{
  ℕ, ◌+◌, ◌*◌, min, String, Bool, true, false, ◌||◌, ◌&&◌, Option, none, some, List, [], ◌∷◌, not,
  ◌==◌, ltb, if◌then◌else◌,
}
use octavia_f5_provider_driv.Octavia.{HealthMonitor, or_else}
use octavia_f5_provider_driv.Text.{f5label, find_char, split_char, join}

-- The options of the section f5_agent that the file reads; "" is an option that is not set.
pub record Conf : Type 0 where
  pub profile_healthmonitor_tls : String
  pub healthmonitor_receive : String

-- The arguments that depend on the type: `none` in a field is an argument that is not given.
pub record Check : Type 0 where
  pub monitor_type : String
  pub send : Option String
  pub receive : Option String
  pub tls_hello_script : Bool
  pub query_name : Option String

pub record Monitor : Type 0 where
  pub check : Check
  pub interval : ℕ
  pub timeout : ℕ
  pub target_address : Option String
  pub target_port : Option ℕ
  pub client_tls : Option String
  pub label : String

-- find(c) > 0
abbrev found_inside : Option ℕ → Bool
found_inside none = false
found_inside (some n) = ltb 0 n

abbrev first_two : List String → String × String
first_two [] = ("", "")
first_two (a ∷ []) = (a, "")
first_two (a ∷ b ∷ _) = (a, b)

-- `_get_recv_text`. The version is a number in the database, and has one decimal either way.
get_recv_text : HealthMonitor → String
unfolding find_char split_char join
get_recv_text hm =
    let http_version = if hm.http_version == "" then "1.(0|1)" else hm.http_version in
    let codes = hm.expected_codes in
    let range = first_two (split_char "-" codes) in
    "HTTP/"
    ++ (http_version
        ++ (if found_inside (find_char "," codes)
            then " (" ++ (join "|" (split_char "," codes) ++ ")")
            else if found_inside (find_char "-" codes)
            then " [" ++ (range.0 ++ ("-" ++ (range.1 ++ "]")))
            else " " ++ codes))

get_send_text : HealthMonitor → String
get_send_text hm =
    let http_version = if hm.http_version == "" then "1.0" else hm.http_version in
    hm.http_method
    ++ (" "
        ++ (hm.url_path
            ++ (" HTTP/"
                ++ (http_version
                    ++ ("\\r\\n"
                        ++ (if hm.domain_name == ""
                            then "\\r\\n"
                            else "Host: " ++ (hm.domain_name ++ "\\r\\n\\r\\n")))))))

abbrev plain : String → Check
plain t = record {
  monitor_type = t;
  send = none;
  receive = none;
  tls_hello_script = false;
  query_name = none;
}

-- The ladder on `health_monitor.type`; `none` is the early `return {}`.
get_check : HealthMonitor → Option Check
unfolding get_recv_text get_send_text
get_check hm =
    let http = λ (t : String). record (plain t) {
      send = some (get_send_text hm);
      receive = some (get_recv_text hm);
    } in
    if hm.type == "HTTP"
    then some (http "http")
    else if hm.type == "HTTPS"
    then some (http "https")
    else if hm.type == "PING"
    then some (plain "icmp")
    else if hm.type == "TCP"
    then some (record (plain "tcp") { send = some ""; receive = some "" })
    else if hm.type == "TLS-HELLO"
    then some (record (plain "external") { tls_hello_script = true; receive = some "UP" })
    else if hm.type == "UDP-CONNECT"
    then some (record (plain "udp") { send = some ""; receive = some "" })
    else if hm.type == "SIP"
    then some (plain "sip")
    else if hm.type == "SMTP"
    then some (plain "smtp")
    else if hm.type == "TCP-HALF_OPEN"
    then some (plain "tcp-half-open")
    else if hm.type == "LDAP"
    then some (plain "ldap")
    else if hm.type == "DNS"
    then some (record (plain "dns") { query_name = some hm.domain_name })
    else none

abbrev given : String → Option String
given t = if t == "" then none else some t

-- `timeout`, capped
timeout_of : HealthMonitor → ℕ
timeout_of hm = min (hm.fall_threshold * hm.delay + 1) 900

-- `none` is the empty dict, for a type that has no AS3 monitor.
pub get_monitor : Conf → HealthMonitor → String → ℕ → Option Monitor
get_monitor conf hm target_address target_port = elim (get_check hm) [
  | none ↦ none
  | some check ↦ some (record {
    check = check;
    interval = hm.delay;
    timeout = timeout_of hm;
    target_address = given target_address;
    target_port = if ltb 0 target_port then some target_port else none;
    client_tls =
        if not (conf.profile_healthmonitor_tls == "") && hm.type == "HTTPS"
        then some conf.profile_healthmonitor_tls
        else none;
    label = f5label (or_else hm.name hm.id);
  })
]
