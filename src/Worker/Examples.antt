-- ===== src/Worker/Examples.antt =====
-- A network with a new load balancer, one that goes and one that is kept.
use octavia_f5_provider_driv.Base.{
  ℕ, eqb, ◌≡◌, ◌⊎◌, ◌++◌, none, some, Option, [], ◌∷◌, All, Exception, as3_exception, if◌then◌else◌,
}
use octavia_f5_provider_driv.Samples.{lb_new, lb_gone, lb_kept}
use octavia_f5_provider_driv.Runs.{Returns, perform}
use octavia_f5_provider_driv.Worker.{Call, World, tenant_update, f5sync}
use octavia_f5_provider_driv.Worker.Plans.{sync_plan, report_plan, f5sync-perform}
use octavia_f5_provider_driv.Worker.Reports.{Unreported, f5sync-Unreported}
use octavia_f5_provider_driv.Octavia.{LoadBalancer}

abbrev fails_on_update : Call → Option Exception
fails_on_update (tenant_update _ _ _ _) = some as3_exception
fails_on_update _ = none

abbrev world : World
world = record {
  loadbalancers = λ _. lb_new ∷ lb_gone ∷ lb_kept ∷ [];
  selfips = λ _. "selfip1" ∷ "selfip2" ∷ [];
  raises = fails_on_update;
}

f5sync-perform_example :
    f5sync world "net1" none
    ≡ perform world.raises (sync_plan world "net1" none ++ report_plan (world.loadbalancers "net1"))
f5sync-perform_example = f5sync-perform world "net1" none

f5sync-Unreported_example :
    All (Returns world.raises) (sync_plan world "net1" none) ⊎ Unreported (f5sync world "net1" none)
f5sync-Unreported_example = f5sync-Unreported world "net1" none

-- The first attempt does not find the load balancer.
abbrev find : ℕ → Option LoadBalancer
find n = if eqb n 0 then none else some lb_new
