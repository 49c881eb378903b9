-- ===== src/Tenant.antt =====
-- octavia_f5/restclient/as3objects/tenant.py: the load balancers of a network as an AS3 tenant.
pub mod Applications
pub mod Names
pub mod Services
mod Examples
use octavia_f5_provider_driv.Base.{
  ℕ, String, Bool, true, false, not, Option, none, some, List, [], ◌∷◌, ◌++◌, map, eqb, keep,
  get_last?, Exception, Result, ok, err, certificate_gone, if◌then◌else◌,
}
use octavia_f5_provider_driv.Octavia.{
  Member, Pool, Listener, LoadBalancer, is_pending_delete, or_else,
}
use octavia_f5_provider_driv.Runs.{Run, pure, raise, call, perform, ◌>>=◌}
use octavia_f5_provider_driv.Text.{concat}
use octavia_f5_provider_driv.Names.{application_name}
use octavia_f5_provider_driv.Monitor.{Conf}
use octavia_f5_provider_driv.Pool.{Entity, get_pool}

-- `status_manager.set_error` is called for these.
pub data Failed : Type 0 where
  failed_listener : Listener → Failed
  failed_member : Member → Failed

-- An exception of `cert_manager`: CertificateRetrievalException with the status 400.
abbrev pub is_gone : Exception → Bool
is_gone certificate_gone = true
is_gone _ = false

abbrev pub is_live_lb : LoadBalancer → Bool
is_live_lb lb = not (is_pending_delete lb.provisioning_status)

abbrev pub is_live_listener : Listener → Bool
is_live_listener l = not (is_pending_delete l.provisioning_status)

-- The entities of an application: those of its services, and those of its pools.
pub data AppEntity (S : Type 0) : Type 0 where
  of_service : S → AppEntity S
  of_pool : String → Entity → AppEntity S

pub record Application (S : Type 0) : Type 0 where
  pub label : String
  pub entities : List (AppEntity S)

-- `segmentation_id` 0 stands for none.
pub record Tenant (S : Type 0) : Type 0 where
  pub label : Option String
  pub default_route_domain : Option ℕ
  pub applications : List (String × Application S)

-- `get_service` is what `m_service.get_service` returns or raises for a listener of a load balancer,
-- and `raises` is what `status_manager.set_error` raises. Entities are in the order in which they are
-- added; a later one of the same name takes the place of an earlier one in the declaration.
module _ {S : Type 0} (conf : Conf) (raises : Failed → Option Exception)
    (get_service : LoadBalancer → Listener → Result (List S)) where
  attached : Listener → Result (List S) → Run Failed (List (AppEntity S))
  attached l (ok es) = pure (map of_service es)
  attached l (err e) =
      if is_gone e then (call raises (failed_listener l) >>= λ _. pure []) else raise e

  attach_listener : LoadBalancer → Listener → Run Failed (List (AppEntity S))
  unfolding attached
  attach_listener lb l =
      if is_pending_delete l.provisioning_status then pure [] else attached l (get_service lb l)

  attach_listeners : LoadBalancer → List Listener → Run Failed (List (AppEntity S))
  unfolding attach_listener
  attach_listeners lb [] = pure []
  attach_listeners lb (l ∷ ls) =
      attach_listener lb l >>= λ es. attach_listeners lb ls >>= λ rest. pure (es ++ rest)

  attach_pool : List String → Pool → Run Failed (List (AppEntity S))
  attach_pool ips p =
      let (entities, failed) = get_pool conf p ips in
      if is_pending_delete p.provisioning_status
      then pure []
      else perform raises (map failed_member failed) >>= λ _.
          pure (map (λ e. of_pool e.0 e.1) entities)

  attach_pools : List String → List Pool → Run Failed (List (AppEntity S))
  unfolding attach_pool
  attach_pools ips [] = pure []
  attach_pools ips (p ∷ ps) =
      attach_pool ips p >>= λ es. attach_pools ips ps >>= λ rest. pure (es ++ rest)

  application : List String → LoadBalancer → Run Failed (Application S)
  unfolding attach_listeners attach_pools
  application ips lb = attach_listeners lb lb.listeners >>= λ services.
      attach_pools ips lb.pools >>= λ pools.
      pure (record { label = lb.id; entities = services ++ pools })

  applications : List String → List LoadBalancer → Run Failed (List (String × Application S))
  unfolding application
  applications ips [] = pure []
  applications ips (lb ∷ lbs) =
      if is_pending_delete lb.provisioning_status
      then applications ips lbs
      else application ips lb >>= λ app.
          applications ips lbs >>= λ rest. pure ((application_name lb.id, app) ∷ rest)

  -- loadbalancers[-1].project_id, or None; project_id or 'none'
  project_of : Option LoadBalancer → String
  project_of none = "none"
  project_of (some lb) = or_else lb.project_id "none"

  pub get_tenant : ℕ → List LoadBalancer → List String → Run Failed (Tenant S)
  unfolding applications project_of
  get_tenant segmentation_id lbs self_ips =
      let ips_to_skip =
        map (λ (lb : LoadBalancer). lb.vip.ip_address) (keep is_live_lb lbs) ++ self_ips in
      applications ips_to_skip lbs >>= λ apps. pure (record {
        label =
            if eqb segmentation_id 0
            then none
            else some (concat "project_" (project_of (get_last? lbs)));
        default_route_domain = if eqb segmentation_id 0 then none else some segmentation_id;
        applications = apps;
      })
