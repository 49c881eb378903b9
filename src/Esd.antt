-- ===== src/Esd.antt =====
-- `get_esd_entities` of octavia_f5/restclient/as3objects/service.py: the profiles that an enhanced
-- service definition (ESD) gives to a service.
pub mod Profiles
mod Examples
use octavia_f5_provider_driv.Base.{
  String, Bool, true, false, not, ◌&&◌, ◌||◌, Option, none, some, List, [], ◌∷◌, ◌==◌, any,
  if◌then◌else◌,
}

-- A parsed ESD; "" and [] are tags that are not set.
pub record Esd : Type 0 where
  pub lbaas_irule : List String
  pub lbaas_ctcp : String
  pub lbaas_stcp : String
  pub lbaas_fastl4 : String
  pub lbaas_one_connect : String
  pub lbaas_http_compression : String
  pub lbaas_cudp : String

-- One profile for both sides, or one for each.
pub data TcpProfile : Type 0 where
  both_sides : (profile : String) → TcpProfile
  ingress_egress : (ingress egress : String) → TcpProfile

-- The service arguments that are set; `irules` [] is none.
pub record EsdArgs : Type 0 where
  pub irules : List String
  pub profile_tcp : Option TcpProfile
  pub profile_l4 : Option String
  pub profile_multiplex : Option String
  pub profile_http_compression : Option String
  pub profile_udp : Option String

abbrev pub one_of : String → List String → Bool
one_of t names = any names (λ n. t == n)

abbrev pub is_tcp_like : String → Bool
is_tcp_like t = one_of t ("Service_HTTP" ∷ "Service_HTTPS" ∷ "Service_TCP" ∷ "Service_L4" ∷ [])

abbrev pub is_http_like : String → Bool
is_http_like t = one_of t ("Service_HTTP" ∷ "Service_HTTPS" ∷ [])

abbrev pub is_set : String → Bool
is_set t = not (t == "")

abbrev when : Bool → String → Option String
when applies tag = if applies && is_set tag then some tag else none

tcp_profile : Esd → Option TcpProfile
tcp_profile esd =
    if is_set esd.lbaas_stcp && is_set esd.lbaas_ctcp
    then some (ingress_egress esd.lbaas_ctcp esd.lbaas_stcp)
    else if is_set esd.lbaas_ctcp
    then some (both_sides esd.lbaas_ctcp)
    else none

unfoldable pub get_esd_entities : String → Esd → EsdArgs
unfolding tcp_profile
get_esd_entities servicetype esd = record {
  irules = esd.lbaas_irule;
  profile_tcp = if is_tcp_like servicetype then tcp_profile esd else none;
  profile_l4 = when (is_tcp_like servicetype && servicetype == "Service_L4") esd.lbaas_fastl4;
  profile_multiplex = when (is_http_like servicetype) esd.lbaas_one_connect;
  profile_http_compression = when (is_http_like servicetype) esd.lbaas_http_compression;
  profile_udp = when (servicetype == "Service_UDP") esd.lbaas_cudp;
}
