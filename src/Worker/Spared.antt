-- ===== src/Worker/Spared.antt =====
-- What moving a load balancer to a device, and away from it, leaves alone.
use octavia_f5_provider_driv.Base.{
  ℕ, true, false, not, ◌≡◌, Option, some, none, List, [], ◌∷◌, ◌++◌, any, mem, if◌then◌else◌,
}
use octavia_f5_provider_driv.Octavia.{LoadBalancer}
use octavia_f5_provider_driv.Worker.{
  Port, Call, tenant_delete, tenant_update, ensure_l2_flow, sync_l2_selfips_and_subnet_routes_flow,
  remove_l2_flow, cleanup_selfips, World, has_id,
}
use octavia_f5_provider_driv.Worker.Removal.{remaining, with_added, is_alone}

-- A property of calls, in some attempt that found the load balancer.
abbrev pub InAttempt :
    (World → LoadBalancer → Call → Type 0) → (ℕ → World) → (ℕ → Option LoadBalancer) → Call → Type 0
InAttempt P w find c = (n : ℕ) × (lb : LoadBalancer) × (find n ≡ some lb) × P (w n) lb c

-- The ports that the remaining load balancers use.
abbrev pub used : World → List LoadBalancer → List Port
used w [] = []
used w (o ∷ os) = w.selfips (o ∷ os)

-- A call that leaves the remaining load balancers alone.
abbrev pub Spares : World → LoadBalancer → Call → Type 0
Spares w lb (cleanup_selfips ps) = any ps (λ p. mem p (used w (remaining w lb))) ≡ false
Spares w lb (tenant_delete _ _) = remaining w lb ≡ []
Spares w lb (remove_l2_flow _ _) = remaining w lb ≡ []
Spares w lb (tenant_update _ _ ps lbs) = (lbs ≡ remaining w lb) × (ps ≡ w.selfips lbs)
Spares w lb _ = Unit

-- A call that keeps what is on the device.
abbrev pub Keeps : World → LoadBalancer → Call → Type 0
Keeps w lb (tenant_update _ _ ps lbs) =
    let present = w.loadbalancers lb.vip.network_id in
    (any lbs (has_id lb.id) ≡ true)
    × (more : List LoadBalancer) × (lbs ≡ present ++ more)
    × (any present (has_id lb.id) ≡ true → more ≡ [])
    × (ps ≡ w.selfips lbs)
Keeps w lb (ensure_l2_flow _ _ _) =
    any (w.loadbalancers lb.vip.network_id) (λ (o : LoadBalancer). not (has_id lb.id o)) ≡ false
Keeps w lb (tenant_delete _ _) = ⊥
Keeps w lb (remove_l2_flow _ _) = ⊥
Keeps w lb (cleanup_selfips _) = ⊥
Keeps w lb _ = Unit

-- The call for the devices.
abbrev l2_call : World → LoadBalancer → Call
l2_call w lb =
    if is_alone w lb
    then ensure_l2_flow (w.selfips (with_added w lb)) lb.vip.network_id none
    else sync_l2_selfips_and_subnet_routes_flow (w.selfips (with_added w lb)) lb.vip.network_id none
