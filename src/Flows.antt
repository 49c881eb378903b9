-- ===== src/Flows.antt =====
-- octavia_f5/controller/worker/flows/f5_flows.py: the tasks of each flow, in the order of the linear
-- flows. The order of an unordered flow is the engine's, an argument, and it ends at the first task
-- that raises.
use octavia_f5_provider_driv.Base.{
  String, Bool, true, false, not, List, [], ◌∷◌, ◌++◌, map, keep, mem, Dict,
}
use octavia_f5_provider_driv.Runs.{Run, pure, ◌>>=◌, ◌>>◌}
use octavia_f5_provider_driv.DeviceRest.{Json, Request, Device, Network, SelfIp}
use octavia_f5_provider_driv.Tasks.{
  NetworkingConf, vlan_name, ensure_vlan, ensure_vlan_interface, ensure_guest_vlan,
  ensure_route_domain, ensure_selfip, remove_selfip, cleanup_vlan, cleanup_route_domain,
  cleanup_vlan_if_not_owned, cleanup_guest_vlan,
}
use octavia_f5_provider_driv.Routes.{
  ensure_default_route, ensure_subnet_routes, cleanup_default_route, cleanup_subnet_routes,
}
use octavia_f5_provider_driv.Text.{concat}

abbrev pub only : {A : Type 0} → Run Request A → Run Request (Unit {0})
only r = r >>= λ _. pure tt

abbrev pub Action : Type 0
Action = Run Request (Unit {0})

abbrev pub in_turn : List Action → Action
in_turn [] = pure tt
in_turn (t ∷ ts) = t >> in_turn ts

abbrev pub ids : List SelfIp → List String
ids ps = map (λ (p : SelfIp). p.id) ps

-- The ports whose id is not among the others'.
abbrev pub others : List SelfIp → List SelfIp → List SelfIp
others known ps = keep (λ (p : SelfIp). not (mem p.id (ids known))) ps

-- What the tasks read from the configuration and the network driver: `physical_interface`, the
-- items of a VLAN's `interfacesReference`, the prefix length for a port, the gateway of the flow's subnet, and the address and prefix of a subnet.
pub record Settings : Type 0 where
  pub conf : NetworkingConf
  pub route_on_active : Bool
  pub physical_interface : String
  pub interfaces : Dict Json → List (Dict Json)
  pub prefixlen : SelfIp → String
  pub gateway : String
  pub cidr : String → String × String

-- `unordered` is the order in which the engine runs the tasks of an unordered flow.
module _ (unordered : List Action → List Action) (s : Settings) (d : Device) (n : Network) where
  pub ensure_l2 : List SelfIp → Run Request (Unit {0})
  ensure_l2 selfips =
      only (ensure_vlan d s.conf n)
      >> only (ensure_route_domain d n)
      >> in_turn (unordered (map (λ p. only (ensure_selfip d n p (s.prefixlen p))) selfips))
      >> ensure_default_route d s.route_on_active n s.gateway
      >> ensure_subnet_routes d s.route_on_active s.cidr n selfips

  pub remove_l2 : List SelfIp → Run Request (Unit {0})
  remove_l2 selfips =
      cleanup_subnet_routes d n selfips true
      >> cleanup_default_route d n
      >> in_turn (unordered (map remove_selfip selfips))
      >> cleanup_route_domain d n
      >> cleanup_vlan n

  pub cleanup_selfips_and_subnet_routes : List SelfIp → List SelfIp → Run Request (Unit {0})
  cleanup_selfips_and_subnet_routes expected device = in_turn (
      unordered (
        map remove_selfip (others expected device)
        ++ cleanup_subnet_routes d n expected false ∷ []))

  pub ensure_selfips_and_subnet_routes : List SelfIp → List SelfIp → Run Request (Unit {0})
  ensure_selfips_and_subnet_routes expected device = in_turn (
      unordered (
        map (λ p. only (ensure_selfip d n p (s.prefixlen p))) (others device expected)
        ++ ensure_subnet_routes d s.route_on_active s.cidr n expected ∷ []))

  pub ensure_vcmp_l2 : List String → Run Request (Unit {0})
  ensure_vcmp_l2 guest_names = ensure_vlan d s.conf n >>= λ vlan.
      only (ensure_vlan_interface d s.physical_interface vlan (s.interfaces vlan))
      >> only (ensure_guest_vlan d guest_names vlan)

  -- GetVCMPGuests, CleanupGuestVLAN, CleanupVLANIfNotOwnedByGuest
  pub remove_vcmp_l2 : List String → Run Request (Unit {0})
  remove_vcmp_l2 guest_names =
      let guests = d.items "/mgmt/tm/vcmp/guest" in
      cleanup_guest_vlan (concat "/Common/" (vlan_name n)) guest_names guests
      >> cleanup_vlan_if_not_owned n guest_names guests
