-- ===== src/Pool/Weights.antt =====
-- The ratios and states of pool members.
use octavia_f5_provider_driv.Base.{ℕ, ◌*◌, ◌+◌, ◌≤◌, ◌<◌, Bool, true, ◌≡◌, ◌≢◌, ◌↔◌, arith, eq_iff}
use octavia_f5_provider_driv.Octavia.{Member}
use octavia_f5_provider_driv.Pool.{normalize_weight, get_member}

-- A weight between 1 and 256 becomes a ratio between 1 and 100, the least one that is not below the
-- weight's share of 256. A larger weight never gets a smaller ratio.
normalize_weight_range :
    (v w : ℕ)
    → 0 < v
    → v ≤ w
    → w ≤ 256
    → (1 ≤ normalize_weight v)
      × (normalize_weight v ≤ normalize_weight w)
      × (normalize_weight w ≤ 100)
      × (w * 100 ≤ normalize_weight w * 256)
      × (normalize_weight w * 256 < w * 100 + 256)
unfolding normalize_weight
normalize_weight_range v w h k l = omega arith

-- Every member gets a ratio from 1 to 100, and it is enabled exactly if the Octavia member is
-- enabled and its weight is not 0.
get_member_state :
    (m : Member) (priority with_monitors : Bool)
    → m.weight ≤ 256
    → (1 ≤ (get_member m priority with_monitors).ratio)
      × ((get_member m priority with_monitors).ratio ≤ 100)
      × (((get_member m priority with_monitors).admin_state ≡ "enable")
          ↔ ((m.enabled ≡ true) × (m.weight ≢ 0)))
unfolding get_member normalize_weight
get_member_state m priority with_monitors h = (
  ground arith,
  ground arith,
  (λ e. ground (arith, eq_iff "disable" "enable"), λ e. ground (arith, eq_iff "disable" "enable")),
)
