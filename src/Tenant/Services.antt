-- ===== src/Tenant/Services.antt =====
-- A tenant with the services of `get_service`.
use octavia_f5_provider_driv.Base.{
  String, List, [], ◌∷◌, ◌++◌, map, keep, Result, Option, Exception, ok, err, if◌then◌else◌,
}
use octavia_f5_provider_driv.Octavia.{Pool, Listener, LoadBalancer, is_pending_delete}
use octavia_f5_provider_driv.Names.{application_name}
use octavia_f5_provider_driv.Monitor.{Conf}
use octavia_f5_provider_driv.ServiceArgs.{Environment, Entity}
use octavia_f5_provider_driv.Service.{get_service}
use octavia_f5_provider_driv.Service.References.{Entities}
use octavia_f5_provider_driv.Tenant.{
  Failed, AppEntity, of_service, of_pool, Application, Tenant, is_live_lb,
}

abbrev pub services_of : List (AppEntity (String × Entity)) → Entities
services_of [] = []
services_of (of_service e ∷ r) = e ∷ services_of r
services_of (of_pool n p ∷ r) = services_of r

-- What `get_service` returned, and nothing if it raised.
abbrev pub built : Result Entities → Entities
built (ok es) = es
built (err e) = []

module _ (conf : Conf) (raises : Failed → Option Exception) (w : Environment) where
  -- The objects of the listeners of a load balancer that are not PENDING_DELETE.
  abbrev pub services : LoadBalancer → List Listener → Entities
  services lb [] = []
  services lb (l ∷ ls) =
      (if is_pending_delete l.provisioning_status then [] else built (get_service w lb l))
      ++ services lb ls

  -- The names of the applications, each with the objects of its services.
  abbrev pub declared : List (String × Application (String × Entity)) → List (String × Entities)
  declared apps =
      map (λ (a : String × Application (String × Entity)). (a.0, services_of a.1.entities)) apps

  abbrev pub expected : List LoadBalancer → List (String × Entities)
  expected lbs =
      map (λ (lb : LoadBalancer). (application_name lb.id, services lb lb.listeners))
        (keep is_live_lb lbs)
