-- ===== src/Routes.antt =====
-- The tasks for routes of octavia_f5/controller/worker/tasks/f5_tasks.py.
pub mod Needed
mod Examples
use octavia_f5_provider_driv.Base.{
  ℕ, String, Bool, true, false, not, ◌&&◌, Option, none, some, List, [], ◌∷◌, ◌++◌, ◌==◌, map, mem,
  any, keep, Dict, lookup, Exception, Result, ok, err, and_then, if◌then◌else◌,
}
use octavia_f5_provider_driv.Text.{concat, starts_with, size, drop_chars}
use octavia_f5_provider_driv.Runs.{Run, pure, ◌>>=◌, ◌>>◌}
use octavia_f5_provider_driv.DeviceRest.{
  Json, text, is_value, Request, post, patch, delete, Device, send, attempt, text_of, name_in,
  Network, SelfIp,
}
use octavia_f5_provider_driv.Tasks.{vlan_name, or_get, delete_first}

-- get_subnet_route_name
abbrev pub subnet_route_name : String → String → String
subnet_route_name network_id subnet_id =
    concat "net_" (concat network_id (concat "_sub_" subnet_id))

abbrev pub subnet_in_selfips : String → List SelfIp → Bool
subnet_in_selfips subnet selfips = any selfips (λ p. mem subnet p.subnet_ids)

-- Subnets without a SelfIP.
abbrev pub subnets_that_need_routes : Network → List SelfIp → List String
subnets_that_need_routes n selfips = keep (λ s. not (subnet_in_selfips s selfips)) n.subnets

-- The subnet of a route of the network, `none` for another route.
pub route_subnet : Network → Dict Json → Option String
unfolding starts_with drop_chars
route_subnet n o =
    let prefix = subnet_route_name n.id "" in
    if starts_with prefix (name_in o) then some (drop_chars (size prefix) (name_in o)) else none

-- names.remove(s) after `s in names`
pub remove_one : String → List String → List String
remove_one s [] = []
remove_one s (t ∷ r) = let rest = remove_one s r in if t == s then r else t ∷ rest

-- The loop over the existing routes: what is there is not needed any more.
pub still_needed : List (Option String) → List String → List String
unfolding remove_one
still_needed [] needed = needed
still_needed (none ∷ rs) needed = still_needed rs needed
still_needed (some s ∷ rs) needed =
    still_needed rs (if mem s needed then remove_one s needed else needed)

-- The route of a subnet; `cidr` gives its address and prefix length.
pub subnet_route : Network → String → String × String → Dict Json
subnet_route n s (ip, prefixlen) =
    ("name", text (subnet_route_name n.id s))
    ∷ ("tmInterface", text (concat "/Common/" (vlan_name n)))
    ∷ ("network", text (concat ip (concat "%" (concat n.vlan (concat "/" prefixlen)))))
    ∷ []

pub post_routes :
    Device → Network → (String → String × String) → List String → Run Request (Unit {0})
unfolding subnet_route
post_routes d n cidr [] = pure tt
post_routes d n cidr (s ∷ ss) =
    send d (post "/mgmt/tm/net/route" (subnet_route n s (cidr s))) >>= λ _. post_routes d n cidr ss

-- `route_on_active and not bigip.is_active`
abbrev pub skips : Bool → Device → Bool
skips route_on_active d = route_on_active && not d.is_active

pub ensure_subnet_routes :
    Device → Bool → (String → String × String) → Network → List SelfIp → Run Request (Unit {0})
unfolding post_routes still_needed route_subnet
ensure_subnet_routes d route_on_active cidr n selfips =
    let existing = d.items "/mgmt/tm/net/route?$filter=partition+eq+Common" in
    if skips route_on_active d
    then pure tt
    else post_routes d n cidr
        (still_needed (map (route_subnet n) existing) (subnets_that_need_routes n selfips))

-- A route of the network whose subnet needs none.
abbrev pub is_unneeded : List String → Option String → Bool
is_unneeded needed none = false
is_unneeded needed (some s) = not (mem s needed)

abbrev pub is_obsolete : Network → List String → Dict Json → Bool
is_obsolete n needed o = is_unneeded needed (route_subnet n o)

-- The loop of CleanupSubnetRoutes.
pub delete_routes : Device → Network → List String → List (Dict Json) → Run Request (Unit {0})
delete_routes d n needed [] = pure tt
delete_routes d n needed (o ∷ os) =
    let rest = delete_routes d n needed os in
    if is_obsolete n needed o
    then (send d (delete (concat "/mgmt/tm/net/route/~Common~" (name_in o))) >>= λ _. rest)
    else rest

pub cleanup_subnet_routes : Device → Network → List SelfIp → Bool → Run Request (Unit {0})
unfolding delete_routes route_subnet
cleanup_subnet_routes d n selfips delete_all =
    delete_routes d n (if delete_all then [] else subnets_that_need_routes n selfips)
      (d.items "/mgmt/tm/net/route")

-- EnsureDefaultRoute; `gateway` is the address of the subnet's gateway.
pub wanted_route : Network → String → Dict Json
wanted_route n gateway =
    ("name", text (vlan_name n))
    ∷ ("gw", text (concat gateway (concat "%" n.vlan)))
    ∷ ("network", text (concat "default%" n.vlan))
    ∷ []

abbrev pub changed_route : Network → String → Dict Json
changed_route n gateway =
    ("gw", text (concat gateway (concat "%" n.vlan)))
    ∷ ("network", text (concat "default%" n.vlan))
    ∷ []

-- A change that is refused: the route is made anew, the failure of its deletion is ignored.
pub change_route : Device → Network → String → String → Run Request (Unit {0})
unfolding wanted_route
change_route d n gateway path =
    let change = patch path (changed_route n gateway) in
    attempt change
    >> (if d.fails 0 change
        then (attempt (delete path)
            >> (send d (post "/mgmt/tm/net/route" (wanted_route n gateway)) >>= λ _. pure tt))
        else pure tt)

pub ensure_default_route : Device → Bool → Network → String → Run Request (Unit {0})
unfolding change_route wanted_route
ensure_default_route d route_on_active n gateway =
    let wanted = changed_route n gateway in
    let found =
      or_get (d.get (concat "/mgmt/tm/net/route/~Common~" (vlan_name n)))
        (d.get (concat "/mgmt/tm/net/route/~Common~net-" n.id)) in
    if skips route_on_active d then pure tt else elim found [
      | none ↦ send d (post "/mgmt/tm/net/route" (wanted_route n gateway)) >>= λ _. pure tt
      | some o ↦
          if is_value (text (concat gateway (concat "%" n.vlan))) (lookup "gw" o)
            && is_value (text (concat "default%" n.vlan)) (lookup "network" o)
          then pure tt
          else change_route d n gateway (concat "/mgmt/tm/net/route/~Common~" (name_in o))
    ]

-- CleanupDefaultRoute
pub cleanup_default_route : Device → Network → Run Request (Unit {0})
unfolding delete_first
cleanup_default_route d n = delete_first d (
    concat "/mgmt/tm/net/route/~Common~" (vlan_name n)
    ∷ concat "/mgmt/tm/net/route/~Common~net-" n.id
    ∷ [])
