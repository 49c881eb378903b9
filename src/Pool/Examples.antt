-- ===== src/Pool/Examples.antt =====
-- A pool of two members.
use octavia_f5_provider_driv.Base.{◌≡◌, not, ◌&&◌, [], ◌∷◌, map, keep, All, if◌then◌else◌}
use octavia_f5_provider_driv.Samples.{member_a, member_b, sample_pool}
use octavia_f5_provider_driv.Monitor.{Conf}
use octavia_f5_provider_driv.Pool.{
  get_member, set_lb_method, get_lb_method, member_has_weight, as3_pool, get_pool, As3Member,
  enable_priority_group, is_some,
}
use octavia_f5_provider_driv.Pool.Mode.{set_lb_method-eq}
use octavia_f5_provider_driv.Pool.Members.{
  is_live, is_taken, AllDeclared, get_pool-members, get_pool-AllDeclared,
}

abbrev conf : Conf
conf = record { profile_healthmonitor_tls = ""; healthmonitor_receive = "" }

set_lb_method-eq_example : set_lb_method "LEAST_CONNECTIONS" (member_a ∷ member_b ∷ []) ≡ (
    if member_has_weight (member_a ∷ member_b ∷ [])
    then "ratio-member"
    else get_lb_method "LEAST_CONNECTIONS")
set_lb_method-eq_example = set_lb_method-eq "LEAST_CONNECTIONS" (member_a ∷ member_b ∷ [])

-- The second member has the address of a SelfIP.
get_pool-members_example :
    ((as3_pool conf sample_pool ("10.0.0.2" ∷ [])).members
      ≡ map
          (λ m.
            get_member m (enable_priority_group sample_pool) (is_some sample_pool.health_monitor))
          (keep (λ m. is_live m && not (is_taken ("10.0.0.2" ∷ []) m)) sample_pool.members))
    × ((get_pool conf sample_pool ("10.0.0.2" ∷ [])).1
        ≡ keep (λ m. is_live m && is_taken ("10.0.0.2" ∷ []) m) sample_pool.members)
get_pool-members_example = get_pool-members conf sample_pool ("10.0.0.2" ∷ [])

get_pool-AllDeclared_example :
    All
      (λ (a : As3Member). AllDeclared (get_pool conf sample_pool []).0 a.monitors)
      (as3_pool conf sample_pool []).members
    × AllDeclared (get_pool conf sample_pool []).0 (as3_pool conf sample_pool []).monitors
get_pool-AllDeclared_example = get_pool-AllDeclared conf sample_pool []
