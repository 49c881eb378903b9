-- ===== src/Worker/Removal.antt =====
-- The calls of one attempt at moving a load balancer to a device, and away from it.
use octavia_f5_provider_driv.Base.{
  String, Bool, true, false, not, ◌≡◌, inl, inr, ◌∙◌, Option, none, List, [], ◌∷◌, ◌++◌, arith, any,
  keep, mem, Exception, if◌then◌else◌, Bool-cases,
}
use octavia_f5_provider_driv.Octavia.{LoadBalancer}
use octavia_f5_provider_driv.Runs.{
  Run, call, pure, ◌>>◌, perform, call-perform, perform-append, >>=_assoc,
}
use octavia_f5_provider_driv.Worker.{
  Port, Call, ensure_selfips, tenant_delete, tenant_update, ensure_l2_flow,
  sync_l2_selfips_and_subnet_routes_flow, remove_l2_flow, cleanup_selfips, invalidate_cache, World,
  has_id, add_found, remove_found, remove_from, remove_one, remove_last,
}

-- The calls, then the result True.
abbrev pub returning_true : Run Call (Unit {0}) → Run Call Bool
returning_true r = r >> pure true

abbrev pub remaining : World → LoadBalancer → List LoadBalancer
remaining w lb = keep (λ o. not (has_id lb.id o)) (w.loadbalancers lb.vip.network_id)

-- The ports of all load balancers that the remaining ones do not use.
abbrev pub unneeded : World → List LoadBalancer → List LoadBalancer → List Port
unneeded w lbs rest = keep (λ p. not (mem p (w.selfips rest))) (w.selfips lbs)

-- What is done for the load balancers that remain.
abbrev pub rest_plan : World → String → List LoadBalancer → List LoadBalancer → List Call
rest_plan w network_id lbs [] =
    tenant_delete network_id none
    ∷ remove_l2_flow network_id none
    ∷ cleanup_selfips (w.selfips lbs)
    ∷ []
rest_plan w network_id lbs (o ∷ os) =
    ensure_selfips (o ∷ os) false
    ∷ sync_l2_selfips_and_subnet_routes_flow (w.selfips (o ∷ os)) network_id none
    ∷ tenant_update network_id none (w.selfips (o ∷ os)) (o ∷ os)
    ∷ cleanup_selfips (unneeded w lbs (o ∷ os))
    ∷ []

remove_from-perform :
    (w : World) (network_id : String) (lbs rest : List LoadBalancer)
    → remove_from w network_id (w.selfips lbs) rest
      ≡ perform w.raises (rest_plan w network_id lbs rest)
unfolding remove_from
remove_from-perform w network_id lbs [] = unfold remove_last in ground arith
remove_from-perform w network_id lbs (o ∷ os) = unfold remove_one in ground arith

-- The calls of one attempt.
pub remove_found-perform :
    (w : World) (lb : LoadBalancer)
    → remove_found w lb
      ≡ returning_true (
          perform w.raises (
            ensure_selfips (w.loadbalancers lb.vip.network_id) false
            ∷ (rest_plan w lb.vip.network_id (w.loadbalancers lb.vip.network_id) (remaining w lb)
                ++ invalidate_cache ∷ [])))
unfolding remove_found
remove_found-perform w lb =
    let lbs = w.loadbalancers lb.vip.network_id in
    let ensure = ensure_selfips lbs false in
    let plan = rest_plan w lb.vip.network_id lbs (remaining w lb) in
    rw (
      >>=_assoc (call w.raises ensure) (λ _. pure (w.selfips lbs))
          (λ selfips.
            remove_from w lb.vip.network_id selfips (remaining w lb)
            >> call w.raises invalidate_cache
            >> pure true),
      remove_from-perform w lb.vip.network_id lbs (remaining w lb),
      >>=_assoc (call w.raises ensure) (λ _. perform w.raises (plan ++ invalidate_cache ∷ []))
          (λ _. pure true),
      perform-append w.raises plan (invalidate_cache ∷ []),
      call-perform w.raises invalidate_cache,
    )

four-perform :
    (raises : Call → Option Exception) (a b c d : Call)
    → (call raises a >> (call raises b >> call raises c >> call raises d >> pure true))
      ≡ returning_true (perform raises (a ∷ b ∷ c ∷ d ∷ []))
four-perform raises a b c d = ground arith

-- The load balancers that a network has on a device once one of it is added.
abbrev pub with_added : World → LoadBalancer → List LoadBalancer
with_added w lb =
    let present = w.loadbalancers lb.vip.network_id in
    if any present (has_id lb.id) then present else present ++ lb ∷ []

abbrev pub is_alone : World → LoadBalancer → Bool
is_alone w lb = not (any (with_added w lb) (λ (o : LoadBalancer). not (has_id lb.id o)))

pub add_found-perform :
    (w : World) (lb : LoadBalancer)
    → add_found w lb
      ≡ returning_true (
          perform w.raises (
            ensure_selfips (with_added w lb) false
            ∷ (if is_alone w lb
                then ensure_l2_flow (w.selfips (with_added w lb)) lb.vip.network_id none
                else sync_l2_selfips_and_subnet_routes_flow
                    (w.selfips (with_added w lb))
                    lb.vip.network_id
                    none)
            ∷ tenant_update lb.vip.network_id none (w.selfips (with_added w lb)) (with_added w lb)
            ∷ invalidate_cache
            ∷ []))
unfolding add_found
add_found-perform w lb =
    let lbs = with_added w lb in
    let network_id = lb.vip.network_id in
    let others = any lbs (λ (o : LoadBalancer). not (has_id lb.id o)) in
    let ensure = ensure_selfips lbs false in
    let update = tenant_update network_id none (w.selfips lbs) lbs in
    >>=_assoc (call w.raises ensure) (λ _. pure (w.selfips lbs))
      (λ selfips.
        (if others
          then call w.raises (sync_l2_selfips_and_subnet_routes_flow selfips network_id none)
          else call w.raises (ensure_l2_flow selfips network_id none))
        >> call w.raises (tenant_update network_id none selfips lbs)
        >> call w.raises invalidate_cache
        >> pure true)
    ∙ elim (Bool-cases others) [
      | inl h ↦ rw h (
          four-perform w.raises ensure
            (sync_l2_selfips_and_subnet_routes_flow (w.selfips lbs) network_id none) update
            invalidate_cache)
      | inr h ↦ rw h (
          four-perform w.raises ensure (ensure_l2_flow (w.selfips lbs) network_id none) update
            invalidate_cache)
    ]
