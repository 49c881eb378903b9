-- ===== src/SelfIps.antt =====
-- `ensure_selfips` of octavia_f5/network/drivers/neutron/neutron_client.py: the SelfIP ports of a
-- network, one for each device and subnet.
pub mod Coverage
pub mod Reverts
mod Examples
use octavia_f5_provider_driv.Base.{
  String, Bool, true, false, not, ◌&&◌, Option, none, some, List, [], ◌∷◌, ◌++◌, ◌==◌, map, mem,
  any, keep, ℕ, zero, suc, Exception, connection_error, neutron_unavailable, retry_error, Result,
  ok, err, if◌then◌else◌,
}
use octavia_f5_provider_driv.Octavia.{LoadBalancer, is_pending_delete}
use octavia_f5_provider_driv.Runs.{Run, pure, raise, retry_on, ◌>>=◌, ◌>>◌}

pub record Port : Type 0 where
  pub id : String
  pub name : String

-- `rejected` is a NeutronClientException other than NetworkNotFoundClient, `failed` another exception.
pub data Created : Type 0 where
  created : Port → Created
  network_not_found : Created
  rejected : Exception → Created
  failed : Exception → Created

-- `parse` is the regular expression's match of a port's name: host and subnet. `create` is what
-- Neutron answers to the request of a port.
pub record World : Type 0 where
  pub parse : String → Option (String × String)
  pub create : String → String → Created

pub data Call : Type 0 where
  delete_port : (id : String) → Call
  create_port : (host subnet_id : String) → Call

-- The sets of `f5hosts`, as the pairs of a host and a subnet in its set.
abbrev pub Claims : Type 0
Claims = List (String × String)

abbrev pub has_claim : String → String → Claims → Bool
has_claim host subnet claims = any claims (λ c. c.0 == host && c.1 == subnet)

pub record Filtered : Type 0 where
  pub kept : List Port
  pub orphans : List Port
  pub claims : Claims

-- set(names); a set has no order, and this keeps the last places.
abbrev pub distinct : List String → List String
distinct [] = []
distinct (n ∷ ns) = let rest = distinct ns in if mem n rest then rest else n ∷ rest

-- The subnets of the load balancers that stay, each once; "" stands for None, which gets no port.
abbrev pub needed_subnets : List LoadBalancer → List String
needed_subnets lbs =
    keep (λ s. not (s == ""))
      (distinct (
        map (λ (lb : LoadBalancer). lb.vip.subnet_id)
          (keep (λ (lb : LoadBalancer). not (is_pending_delete lb.provisioning_status)) lbs)))

module _ (w : World) (cleanup_orphans : Bool) (hosts needed : List String) where
  abbrev pub is_valid : String → String → Claims → Bool
  is_valid host subnet claims =
      mem host hosts && (mem subnet needed && not (has_claim host subnet claims))

  -- What becomes of a port that is a SelfIP by its name, valid or not.
  place : Bool → Port → Filtered → Filtered
  place true p r = record r { kept = p ∷ r.kept }
  place false p r =
      if cleanup_orphans
      then record r { orphans = p ∷ r.orphans }
      else record r { kept = p ∷ r.kept }

  abbrev pub claimed : Bool → String → String → Claims → Claims
  claimed valid host subnet claims = if valid then (host, subnet) ∷ claims else claims

  -- The loop over the ports.
  filter_ports : List (Port × Option (String × String)) → Claims → Filtered
  unfolding place
  filter_ports [] claims = record { kept = []; orphans = []; claims = claims }
  filter_ports ((p, none) ∷ ps) claims = filter_ports ps claims
  filter_ports ((p, some (host, subnet)) ∷ ps) claims =
      let valid = is_valid host subnet claims in
      place valid p (filter_ports ps (claimed valid host subnet claims))

  pub filter_selfips : List Port → Filtered
  unfolding filter_ports
  filter_selfips ports = filter_ports (map (λ (p : Port). (p, w.parse p.name)) ports) []

-- The subnets that a host has no port for.
abbrev pub missing_of : List String → Claims → String → List (String × String)
missing_of needed claims host =
    map (λ s. (host, s)) (keep (λ s. not (has_claim host s claims)) needed)

abbrev pub missing : List String → List String → Claims → List (String × String)
missing [] needed claims = []
missing (h ∷ hs) needed claims = missing_of needed claims h ++ missing hs needed claims

-- The loop that creates ports; an error of the client deletes those that were created before.
after_create : Created → List Port → (List Port → Run Call (List Port)) → Run Call (List Port)
after_create (created p) new rest = rest (new ++ p ∷ [])
after_create network_not_found new rest = rest new
after_create (failed e) new rest = raise e
after_create (rejected e) new rest = record {
  calls = map (λ (p : Port). delete_port p.id) new;
  result = err e;
}

pub create_ports : World → List (String × String) → List Port → Run Call (List Port)
unfolding after_create
create_ports w [] new = pure new
create_ports w ((host, subnet) ∷ rest) new =
    record { calls = create_port host subnet ∷ []; result = ok tt }
    >> after_create (w.create host subnet) new (λ new'. create_ports w rest new')

-- The ports that exist and the new ones.
ensure_in : World → List String → List String → Filtered → Run Call (List Port × List Port)
unfolding create_ports
ensure_in w hosts needed f =
    record { calls = map (λ (p : Port). delete_port p.id) f.orphans; result = ok tt }
    >> (create_ports w (missing hosts needed f.claims) [] >>= λ new. pure (f.kept, new))

-- One attempt of `ensure_selfips`. The deletions return, or their NetworkNotFound is passed over;
-- `hosts` are the devices of the agent, and `ports` those that Neutron lists.
ensure_selfips_once :
    World → Bool → List String → List Port → List LoadBalancer → Run Call (List Port × List Port)
unfolding ensure_in filter_selfips
ensure_selfips_once w cleanup_orphans hosts ports [] = pure ([], [])
ensure_selfips_once w cleanup_orphans hosts ports (lb ∷ lbs) =
    let needed = needed_subnets (lb ∷ lbs) in
    ensure_in w hosts needed (filter_selfips w cleanup_orphans hosts needed ports)

-- `tenacity.retry`: the exceptions after which there is another attempt.
abbrev is_retried : Exception → Bool
is_retried connection_error = true
is_retried neutron_unavailable = true
is_retried _ = false

-- Each attempt lists the ports again.
pub ensure_selfips :
    (ℕ → World)
    → Bool
    → List String
    → (ℕ → List Port)
    → List LoadBalancer
    → Run Call (List Port × List Port)
unfolding ensure_selfips_once
ensure_selfips w cleanup_orphans hosts ports lbs =
    retry_on is_retried 15 0 (λ n. ensure_selfips_once (w n) cleanup_orphans hosts (ports n) lbs)
