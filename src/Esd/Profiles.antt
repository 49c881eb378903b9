-- ===== src/Esd/Profiles.antt =====
-- Which profiles reach which type of service.
use octavia_f5_provider_driv.Base.{
  String, Bool, true, false, ◌&&◌, ◌≡◌, Option, none, some, ◌==◌, arith, eq_iff, Bool-cases, inl,
  inr,
}
use octavia_f5_provider_driv.Esd.{
  Esd, is_tcp_like, is_http_like, is_set, tcp_profile, get_esd_entities,
}

abbrev is_given : {A : Type 0} → Option A → Bool
is_given none = false
is_given (some _) = true

is_given-tcp_profile : (esd : Esd) → is_given (tcp_profile esd) ≡ is_set esd.lbaas_ctcp
unfolding tcp_profile
is_given-tcp_profile esd = ground arith

module _ (t : String) where
  http_is_not_l4 : (is_http_like t && t == "Service_L4") ≡ false
  http_is_not_l4 = ground (
    arith,
    eq_iff t "Service_L4",
    eq_iff t "Service_HTTP",
    eq_iff t "Service_HTTPS",
    eq_iff "Service_L4" "Service_HTTP",
    eq_iff "Service_L4" "Service_HTTPS",
  )

  tcp_is_not_udp : (is_tcp_like t && t == "Service_UDP") ≡ false
  tcp_is_not_udp = elim (Bool-cases (t == "Service_UDP")) [
    | inr other ↦ rw other (ground arith)
    | inl udp ↦ rw ((eq_iff t "Service_UDP").0 udp)
  ]

  module _ (esd : Esd) where
    tcp-eq :
        is_given (get_esd_entities t esd).profile_tcp ≡ (is_tcp_like t && is_set esd.lbaas_ctcp)
    unfolding get_esd_entities
    tcp-eq = ground (arith, is_given-tcp_profile esd)

    l4-eq :
        is_given (get_esd_entities t esd).profile_l4
        ≡ (t == "Service_L4" && is_set esd.lbaas_fastl4)
    unfolding get_esd_entities
    l4-eq = ground arith

    multiplex-eq :
        is_given (get_esd_entities t esd).profile_multiplex
        ≡ (is_http_like t && is_set esd.lbaas_one_connect)
    unfolding get_esd_entities
    multiplex-eq = ground arith

    udp-eq :
        is_given (get_esd_entities t esd).profile_udp
        ≡ (t == "Service_UDP" && is_set esd.lbaas_cudp)
    unfolding get_esd_entities
    udp-eq = ground arith

-- Each profile is set exactly if its tag is and the service is of its kind: TCP profiles for HTTP,
-- HTTPS, TCP and L4 services, where the server side alone is not enough; the L4 profile for L4
-- services; multiplexing and compression for HTTP and HTTPS services; the UDP profile for UDP
-- services. So no service gets both an L4 profile and an HTTP one, nor both a TCP and a UDP one.
get_esd_entities-kinds :
    (t : String) (esd : Esd)
    → (is_given (get_esd_entities t esd).profile_tcp ≡ (is_tcp_like t && is_set esd.lbaas_ctcp))
      × (is_given (get_esd_entities t esd).profile_l4
          ≡ (t == "Service_L4" && is_set esd.lbaas_fastl4))
      × (is_given (get_esd_entities t esd).profile_multiplex
          ≡ (is_http_like t && is_set esd.lbaas_one_connect))
      × (is_given (get_esd_entities t esd).profile_http_compression
          ≡ (is_http_like t && is_set esd.lbaas_http_compression))
      × (is_given (get_esd_entities t esd).profile_udp
          ≡ (t == "Service_UDP" && is_set esd.lbaas_cudp))
      × ((is_given (get_esd_entities t esd).profile_l4
            && is_given (get_esd_entities t esd).profile_multiplex)
          ≡ false)
      × ((is_given (get_esd_entities t esd).profile_tcp
            && is_given (get_esd_entities t esd).profile_udp)
          ≡ false)
unfolding get_esd_entities
get_esd_entities-kinds t esd = (
  tcp-eq t esd,
  l4-eq t esd,
  multiplex-eq t esd,
  ground arith,
  udp-eq t esd,
  ground (arith, l4-eq t esd, multiplex-eq t esd, http_is_not_l4 t),
  ground (arith, tcp-eq t esd, udp-eq t esd, tcp_is_not_udp t),
)
