-- ===== src/Routes/Examples.antt =====
-- A network of three subnets, one with a SelfIP and one with a route, and a device with the route of
-- a fourth one.
use octavia_f5_provider_driv.Base.{
  String, true, false, not, ◌||◌, ◌≡◌, refl, none, List, [], ◌∷◌, map, mem, keep, Dict,
}
use octavia_f5_provider_driv.DeviceRest.{Json, text, Device, Network, SelfIp}
use octavia_f5_provider_driv.Routes.{
  subnets_that_need_routes, is_obsolete, ensure_subnet_routes, cleanup_subnet_routes,
}
use octavia_f5_provider_driv.Routes.Needed.{
  has_route, routed_subnets, made, post_route, delete_route, subnet_routes-needed,
}

abbrev network : Network
network = record { id = "n"; vlan_id = 7; vlan = "7"; mtu = 1500; subnets = "a" ∷ "b" ∷ "e" ∷ [] }

abbrev selfips : List SelfIp
selfips = record { id = "p"; ip_address = "10.0.0.1"; subnet_ids = "a" ∷ [] } ∷ []

abbrev route : String → Dict Json
route s = ("name", text s) ∷ []

abbrev routes : List (Dict Json)
routes = route "net_n_sub_c" ∷ route "net_n_sub_b" ∷ []

abbrev device : List (Dict Json) → Device
device present = record {
  is_active = true;
  get = λ path. none;
  reread = λ k path. none;
  items = λ path. present;
  answer = λ r. [];
  fails = λ n r. false;
}

abbrev cidr : String → String × String
cidr s = ("10.1.0.0", "24")

abbrev needed : List String
needed = subnets_that_need_routes network selfips

abbrev kept : List (Dict Json)
kept = keep (λ o. not (is_obsolete network needed o)) routes

abbrev missing : List String
missing = keep (λ s. not (has_route s (routed_subnets network kept))) needed

subnet_routes-needed_example :
    (cleanup_subnet_routes (device routes) network selfips false
      ≡ made (map delete_route (keep (is_obsolete network needed) routes)))
    × (ensure_subnet_routes (device kept) true cidr network selfips
        ≡ made (map (post_route network cidr) missing))
    × ((c : String) → (mem c missing || has_route c (routed_subnets network kept)) ≡ mem c needed)
subnet_routes-needed_example =
    subnet_routes-needed (device routes) (device kept) true cidr network selfips routes (λ r. refl)
      (λ r. refl) refl refl refl refl
