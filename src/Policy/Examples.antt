-- ===== src/Policy/Examples.antt =====
-- A policy that redirects by path.
use octavia_f5_provider_driv.Base.{◌≡◌, [], ◌∷◌, all}
use octavia_f5_provider_driv.Samples.{sample_policy}
use octavia_f5_provider_driv.Policy.{get_endpoint_policy}
use octavia_f5_provider_driv.Policy.Supported.{is_ok, supports, is_ok-get_endpoint_policy}

is_ok-get_endpoint_policy_example :
    is_ok (get_endpoint_policy (sample_policy ∷ [])) ≡ all (sample_policy ∷ []) supports
is_ok-get_endpoint_policy_example = is_ok-get_endpoint_policy (sample_policy ∷ [])
