-- ===== src/Tenant/Examples.antt =====
-- A tenant whose listener has a service of one entity.
use octavia_f5_provider_driv.Base.{
  String, ◌≡◌, [], ◌∷◌, List, none, Option, Exception, all, Result, ok, err, certificate_gone,
}
use octavia_f5_provider_driv.Octavia.{Listener, LoadBalancer}
use octavia_f5_provider_driv.Samples.{lb_kept, lb_gone}
use octavia_f5_provider_driv.Monitor.{Conf}
use octavia_f5_provider_driv.Tenant.{Failed, Tenant, get_tenant}
use octavia_f5_provider_driv.Tenant.Applications.{
  returns, builds_all, ips_to_skip, returns-get_tenant,
}
use octavia_f5_provider_driv.ServiceArgs.{Entity}
use octavia_f5_provider_driv.Service.{get_service}
use octavia_f5_provider_driv.Service.Samples.{environment, https_listener}

abbrev conf : Conf
conf = record { profile_healthmonitor_tls = ""; healthmonitor_receive = "" }

abbrev no_error : Failed → Option Exception
no_error f = none

-- The certificates of every listener are gone.
abbrev no_service : LoadBalancer → Listener → Result (List String)
no_service lb l = err certificate_gone

returns-get_tenant_example :
    returns (get_tenant conf no_error no_service 7 (lb_kept ∷ lb_gone ∷ []) []).result
    ≡ all (lb_kept ∷ lb_gone ∷ []) (
        builds_all conf no_error no_service
          (ips_to_skip conf no_error no_service (lb_kept ∷ lb_gone ∷ []) []))
returns-get_tenant_example =
    returns-get_tenant conf no_error no_service 7 (lb_kept ∷ lb_gone ∷ []) []

abbrev tenant_of : {S : Type 0} → Tenant S → Result (Tenant S) → Tenant S
tenant_of d (ok t) = t
tenant_of d (err _) = d

abbrev lb_https : LoadBalancer
lb_https = record lb_kept { listeners = https_listener ∷ []; pools = [] }

abbrev none_declared : Tenant (String × Entity)
none_declared = record { label = none; default_route_domain = none; applications = [] }

abbrev https_tenant : Tenant (String × Entity)
https_tenant =
    tenant_of none_declared
      (get_tenant conf no_error (get_service environment) 7 (lb_https ∷ lb_gone ∷ []) []).result
