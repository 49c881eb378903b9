-- ===== src/Pool/Mode.antt =====
-- The load balancing mode of a pool.
use octavia_f5_provider_driv.Base.{String, Bool, true, false, ◌≡◌, List, ◌==◌, if◌then◌else◌, refl}
use octavia_f5_provider_driv.Octavia.{Member}
use octavia_f5_provider_driv.Text.{upper}
use octavia_f5_provider_driv.Pool.{member_has_weight, get_lb_method, set_lb_method}

record IsDeviceName (s : String) : Type 0 where
  not_source_ip : (s == "SOURCE_IP") ≡ false
  not_least_connections : (s == "LEAST_CONNECTIONS") ≡ false

-- The ladder of `_get_lb_method` on the outcomes of its tests.
ladder-IsDeviceName :
    (a b c d e f : Bool)
    → IsDeviceName (
        if a
        then "least-connections-member"
        else if b
        then "ratio-least-connections-member"
        else if c
        then "round-robin"
        else if d
        then "observed-member"
        else if e
        then "predictive-member"
        else if f
        then "ratio-member"
        else "round-robin")
ladder-IsDeviceName true b c d e f = record { not_source_ip = refl; not_least_connections = refl }
ladder-IsDeviceName false true c d e f = record {
  not_source_ip = refl;
  not_least_connections = refl;
}
ladder-IsDeviceName false false true d e f = record {
  not_source_ip = refl;
  not_least_connections = refl;
}
ladder-IsDeviceName false false false true e f = record {
  not_source_ip = refl;
  not_least_connections = refl;
}
ladder-IsDeviceName false false false false true f = record {
  not_source_ip = refl;
  not_least_connections = refl;
}
ladder-IsDeviceName false false false false false true = record {
  not_source_ip = refl;
  not_least_connections = refl;
}
ladder-IsDeviceName false false false false false false = record {
  not_source_ip = refl;
  not_least_connections = refl;
}

-- The result of `_get_lb_method` is a name of the device, never one of Octavia's constants.
get_lb_method-IsDeviceName : (method : String) → IsDeviceName (get_lb_method method)
unfolding get_lb_method
get_lb_method-IsDeviceName method =
    let m = upper method in
    ladder-IsDeviceName (m == "LEAST_CONNECTIONS") (m == "RATIO_LEAST_CONNECTIONS")
      (m == "SOURCE_IP") (m == "OBSERVED_MEMBER") (m == "PREDICTIVE_MEMBER") (m == "RATIO")

ratio : get_lb_method "RATIO" ≡ "ratio-member"
unfolding get_lb_method upper
ratio = refl

-- `_set_lb_method` tests a name of the device against Octavia's constants, so both tests fail
-- always: with a member that counts and weighs more than 1 the mode is `ratio-member` for every
-- algorithm, LEAST_CONNECTIONS and SOURCE_IP included, and otherwise the algorithm's own mode.
pub set_lb_method-eq :
    (algorithm : String) (members : List Member)
    → set_lb_method algorithm members
      ≡ (if member_has_weight members then "ratio-member" else get_lb_method algorithm)
unfolding set_lb_method
set_lb_method-eq algorithm members =
    let name = get_lb_method-IsDeviceName algorithm in
    rw (name.not_source_ip, name.not_least_connections, ratio) refl
