-- ===== src/Tasks.antt =====
-- The tasks for VLANs, guests, route domains and SelfIPs of
-- octavia_f5/controller/worker/tasks/f5_tasks.py.
pub mod Settled
pub mod Guests
mod Examples
use octavia_f5_provider_driv.Base.{
  ℕ, zero, suc, ◌+◌, String, Bool, true, false, not, ◌&&◌, Option, none, some, List, [], ◌∷◌, ◌++◌,
  ◌==◌, map, mem, keep, Dict, lookup, Exception, http_error, retry_error, Result, ok, err,
  if◌then◌else◌,
}
use octavia_f5_provider_driv.Text.{concat, starts_with, size, drop_chars}
use octavia_f5_provider_driv.Runs.{Run, pure, ◌>>=◌, ◌>>◌}
use octavia_f5_provider_driv.DeviceRest.{
  Json, text, number, texts, tagged, same_texts, is_value, covers, Request, post, patch, delete,
  Device, send_or, send, attempt, text_of, texts_of, name_in, Network, SelfIp,
}

-- The options of the group networking.
pub record NetworkingConf : Type 0 where
  pub hardware_syncookie : Bool
  pub syn_flood_rate_limit : ℕ
  pub syncache_threshold : ℕ

abbrev pub vlan_name : Network → String
vlan_name n = concat "vlan-" n.vlan

abbrev pub wanted_vlan : NetworkingConf → Network → Dict Json
wanted_vlan c n =
    ("name", text (vlan_name n))
    ∷ ("tag", number n.vlan_id)
    ∷ ("mtu", number n.mtu)
    ∷ ("hardwareSyncookie", text (if c.hardware_syncookie then "enabled" else "disabled"))
    ∷ ("synFloodRateLimit", number c.syn_flood_rate_limit)
    ∷ ("syncacheThreshold", number c.syncache_threshold)
    ∷ []

-- Create what is not there, change what differs, and leave the rest alone.
abbrev pub ensured :
    (Request → Run Request (Dict Json))
    → String
    → String
    → Dict Json
    → Option (Dict Json)
    → Run Request (Dict Json)
ensured send_it collection path wanted none = send_it (post collection wanted)
ensured send_it collection path wanted (some o) =
    if covers o wanted then pure o else send_it (patch path wanted)

-- One attempt of EnsureVLAN.execute.
pub ensure_vlan_once : Device → NetworkingConf → Network → ℕ → Run Request (Dict Json)
ensure_vlan_once d c n attempt_no =
    let path = concat "/mgmt/tm/net/vlan/~Common~" (vlan_name n) in
    ensured (send_or http_error d attempt_no) "/mgmt/tm/net/vlan" path (wanted_vlan c n)
      (d.reread attempt_no (concat path "?expandSubcollections=true"))

-- tenacity: the next attempt after an HTTPError, and RetryError after the last.
abbrev pub retried :
    List Request → Result (Dict Json) → Run Request (Dict Json) → Run Request (Dict Json)
retried calls (ok o) rest = record { calls = calls; result = ok o }
retried calls (err e) rest = record { calls = calls ++ rest.calls; result = rest.result }

pub retry_http : ℕ → ℕ → (ℕ → Run Request (Dict Json)) → Run Request (Dict Json)
retry_http zero n body = record { calls = []; result = err retry_error }
retry_http (suc left) n body = retried (body n).calls (body n).result (retry_http left (n + 1) body)

-- EnsureVLAN: the only exception of an attempt is HTTPError.
pub ensure_vlan : Device → NetworkingConf → Network → Run Request (Dict Json)
unfolding retry_http ensure_vlan_once
ensure_vlan d c n = retry_http 3 0 (ensure_vlan_once d c n)

-- EnsureVLANInterface; `interfaces` are the items of the VLAN's `interfacesReference`.
pub ensure_vlan_interface :
    Device → String → Dict Json → List (Dict Json) → Run Request (Option (Dict Json))
ensure_vlan_interface d physical vlan interfaces =
    let wanted = ("name", text (name_in vlan)) ∷ ("interfaces", tagged physical) ∷ [] in
    let patched =
      send d (patch (concat "/mgmt/tm/net/vlan/" (name_in vlan)) wanted) >>= λ o. pure (some o) in
    elim interfaces [ [] ↦ patched | i ∷ is ↦ if covers i wanted then pure none else patched ]

abbrev pub vlans_of : Dict Json → List String
vlans_of o = texts_of (lookup "vlans" o)

-- The loop of EnsureGuestVLAN over the guests, with the last managed guest seen.
pub ensure_guests :
    Device
    → List String
    → String
    → List (Dict Json)
    → Option (Dict Json)
    → Run Request (Option (Dict Json))
ensure_guests d names vlan [] seen = pure seen
ensure_guests d names vlan (g ∷ gs) seen =
    let skipped = ensure_guests d names vlan gs seen in
    let present = ensure_guests d names vlan gs (some g) in
    if not (mem (name_in g) names)
    then skipped
    else if mem vlan (map (λ v. concat "/Common/" v) (vlans_of g))
    then present
    else send d (
        patch (concat "/mgmt/tm/vcmp/guest/" (name_in g))
          (("vlans", texts (vlans_of g ++ concat "/Common/" vlan ∷ [])) ∷ []))
      >>= λ o. pure (some o)

pub ensure_guest_vlan : Device → List String → Dict Json → Run Request (Option (Dict Json))
unfolding ensure_guests
ensure_guest_vlan d names vlan =
    ensure_guests d names (name_in vlan) (d.items "/mgmt/tm/vcmp/guest") none

abbrev pub or_get : Option (Dict Json) → Option (Dict Json) → Option (Dict Json)
or_get none o = o
or_get (some a) _ = some a

-- EnsureRouteDomain: also under the legacy name.
pub ensure_route_domain : Device → Network → Run Request (Dict Json)
ensure_route_domain d n =
    let vlans = concat "/Common/" (vlan_name n) ∷ [] in
    let found =
      or_get (d.get (concat "/mgmt/tm/net/route-domain/" (vlan_name n)))
        (d.get (concat "/mgmt/tm/net/route-domain/net-" n.id)) in
    elim found [
      | none ↦ send d (
          post "/mgmt/tm/net/route-domain"
            (("name", text (vlan_name n)) ∷ ("vlans", texts vlans) ∷ ("id", number n.vlan_id) ∷ []))
      | some o ↦
          if same_texts (vlans_of o) vlans
          then pure o
          else send d (
              patch (concat "/mgmt/tm/net/route-domain/" (text_of (lookup "fullPath" o)))
                (("vlans", texts vlans) ∷ []))
    ]

-- EnsureSelfIP; `prefixlen` is that of the subnet of the port's first address.
pub wanted_selfip : Network → SelfIp → String → Dict Json
wanted_selfip n p prefixlen =
    ("name", text (concat "port-" p.id))
    ∷ ("vlan", text (concat "/Common/" (vlan_name n)))
    ∷ ("address", text (concat p.ip_address (concat "%" (concat n.vlan (concat "/" prefixlen)))))
    ∷ []

pub ensure_selfip : Device → Network → SelfIp → String → Run Request (Dict Json)
unfolding wanted_selfip
ensure_selfip d n p prefixlen =
    let name = concat "port-" p.id in
    let found = d.get (concat "/mgmt/tm/net/self/" name) in
    elim found [
      | none ↦ send d (post "/mgmt/tm/net/self" (wanted_selfip n p prefixlen))
      | some o ↦
          if covers o (wanted_selfip n p prefixlen)
          then pure o
          else send d
              (patch (concat "/mgmt/tm/net/self/" (name_in o)) (wanted_selfip n p prefixlen))
    ]

-- GetAllSelfIPsForVLAN: the ids of the ports in the names of the VLAN's SelfIPs, behind `port-`.
pub get_all_selfips : Device → Network → List String
get_all_selfips d n =
    map (λ o. drop_chars (size "port-") (name_in o))
      (keep
        (λ o.
          is_value (text (concat "/Common/" (vlan_name n))) (lookup "vlan" o)
          && starts_with "port-" (name_in o))
        (d.items "/mgmt/tm/net/self?$select=vlan,name"))

-- RemoveSelfIP, CleanupVLAN
unfoldable pub remove_selfip : SelfIp → Run Request (Unit {0})
remove_selfip p = attempt (delete (concat "/mgmt/tm/net/self/port-" p.id))

pub cleanup_vlan : Network → Run Request (Unit {0})
cleanup_vlan n = attempt (delete (concat "/mgmt/tm/net/vlan/~Common~" (vlan_name n)))

-- The first of the paths where something is.
unfoldable pub delete_first : Device → List String → Run Request (Unit {0})
delete_first d [] = pure tt
delete_first d (p ∷ ps) = elim (d.get p) [ none ↦ delete_first d ps | some o ↦ attempt (delete p) ]

pub cleanup_route_domain : Device → Network → Run Request (Unit {0})
unfolding delete_first
cleanup_route_domain d n = delete_first d (
    concat "/mgmt/tm/net/route-domain/" (vlan_name n)
    ∷ concat "/mgmt/tm/net/route-domain/net-" n.id
    ∷ [])

-- CleanupVLANIfNotOwnedByGuest: no guest but the managed ones uses the VLAN.
pub used_by_other : List String → String → List (Dict Json) → Bool
used_by_other names vlan [] = false
used_by_other names vlan (g ∷ gs) =
    let rest = used_by_other names vlan gs in
    if mem (name_in g) names then rest else if mem vlan (vlans_of g) then true else rest

pub cleanup_vlan_if_not_owned : Network → List String → List (Dict Json) → Run Request (Unit {0})
unfolding used_by_other
cleanup_vlan_if_not_owned n names guests =
    if used_by_other names (concat "/Common/" (vlan_name n)) guests
    then pure tt
    else attempt (delete (concat "/mgmt/tm/net/vlan/" (vlan_name n)))

-- CleanupGuestVLAN: the task ends at the first managed guest that does not have the VLAN.
pub cleanup_guest_vlan : String → List String → List (Dict Json) → Run Request (Unit {0})
cleanup_guest_vlan path names [] = pure tt
cleanup_guest_vlan path names (g ∷ gs) =
    let rest = cleanup_guest_vlan path names gs in
    let vlans = keep (λ v. not (v == path)) (vlans_of g) in
    if not (mem (name_in g) names)
    then rest
    else if same_texts vlans (vlans_of g)
    then pure tt
    else (attempt (patch (concat "/mgmt/tm/vcmp/guest/" (name_in g)) (("vlans", texts vlans) ∷ []))
        >> rest)
