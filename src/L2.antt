-- ===== src/L2.antt =====
-- octavia_f5/controller/worker/l2_sync_manager.py: which L2 flows are run for a network, and when
-- their failures are errors. The flows themselves are run by taskflow, in parallel.
pub mod Failures
mod Examples
use octavia_f5_provider_driv.Base.{
  String, Bool, true, false, not, ◌&&◌, ◌||◌, Option, none, some, List, [], ◌∷◌, ◌++◌, ◌==◌, map,
  any, all, keep, Exception, ok, if◌then◌else◌,
}
use octavia_f5_provider_driv.Runs.{Run, pure, raise, ◌>>=◌, ◌>>◌}

pub record Port : Type 0 where
  pub id : String
  pub subnet_id : String

-- What `submit` starts. Devices are compared by identity, which the hostname stands for.
pub data Flow : Type 0 where
  ensure_l2 : (bigip : String) (selfips : List Port) (subnet_id : String) → Flow
  ensure_vcmp_l2 : (vcmp : String) (guest_names : List String) → Flow
  remove_l2 : (bigip : String) → Flow
  remove_vcmp_l2 : (vcmp : String) (guest_names : List String) → Flow
  sync_l2_selfips_and_subnet_routes : (bigip : String) (selfips : List Port) → Flow

-- What `get_network` and `has_bound_segment` say.
pub data Network : Type 0 where
  not_found unbound bound : Network

-- `selfips_for` are the ports whose name has a hostname in it; `fails` is a flow that raises or does
-- not end in time.
pub record World : Type 0 where
  pub bigips : List String
  pub vcmps : List String
  pub override_vcmp_guest_names : List String
  pub network : String → Network
  pub selfips_for : String → List Port → List Port
  pub fails : Flow → Bool

abbrev submit : Flow → Run Flow (Unit {0})
submit f = record { calls = f ∷ []; result = ok tt }

-- `not (device and bigip.hostname != device)`
abbrev pub is_meant : Option String → String → Bool
is_meant none b = true
is_meant (some d) b = d == "" || b == d

abbrev pub guest_names : World → List String
guest_names w = elim w.override_vcmp_guest_names [ [] ↦ w.bigips | n ∷ ns ↦ n ∷ ns ]

-- The flow of one device; `pop` on no subnet raises KeyError. Of several subnets, a set gives any,
-- here that of the first port.
ensure_bigip : String → List Port → Run Flow (Unit {0})
ensure_bigip b [] = raise Exception.other
ensure_bigip b (p ∷ ps) = submit (ensure_l2 b (p ∷ ps) p.subnet_id)

ensure_bigips : World → Option String → List Port → List String → Run Flow (Unit {0})
unfolding ensure_bigip
ensure_bigips w device selfips [] = pure tt
ensure_bigips w device selfips (b ∷ bs) =
    (if is_meant device b then ensure_bigip b (w.selfips_for b selfips) else pure tt)
    >> ensure_bigips w device selfips bs

submit_all : List Flow → Run Flow (Unit {0})
submit_all [] = pure tt
submit_all (f ∷ fs) = submit f >> submit_all fs

-- `failed_bigips`, as a test
abbrev pub is_of_bigip : String → Flow → Bool
is_of_bigip b (ensure_l2 c _ _) = c == b
is_of_bigip b _ = false

abbrev pub is_of_vcmp : String → Flow → Bool
is_of_vcmp v (ensure_vcmp_l2 c _) = c == v
is_of_vcmp v _ = false

abbrev pub has_failed : World → (String → Flow → Bool) → List Flow → String → Bool
has_failed w is_of flows d = any flows (λ f. is_of d f && w.fails f)

abbrev pub is_empty : List String → Bool
is_empty [] = true
is_empty (_ ∷ _) = false

-- The errors that are raised once all flows have ended.
check_failed : World → List Flow → Run Flow (Unit {0})
check_failed w flows =
    if not (is_empty w.bigips) && all w.bigips (has_failed w is_of_bigip flows)
    then raise Exception.other
    else if not (is_empty w.vcmps) && all w.vcmps (has_failed w is_of_vcmp flows)
    then raise Exception.other
    else pure tt

submit_ensure : World → Option String → List Port → Run Flow (Unit {0})
unfolding ensure_bigips submit_all
submit_ensure w device selfips =
    ensure_bigips w device selfips w.bigips
    >> submit_all (map (λ v. ensure_vcmp_l2 v (guest_names w)) w.vcmps)

-- The errors are raised for the flows that were submitted.
checked : World → Run Flow (Unit {0}) → Run Flow (Unit {0})
unfolding check_failed
checked w r = r >> check_failed w r.calls

ensure_in : World → Option String → List Port → Network → Run Flow (Unit {0})
unfolding submit_ensure checked
ensure_in w device selfips bound = checked w (submit_ensure w device selfips)
ensure_in w device selfips _ = raise Exception.other

pub ensure_l2_flow : World → List Port → String → Option String → Run Flow (Unit {0})
unfolding ensure_in
ensure_l2_flow w [] network_id device = pure tt
ensure_l2_flow w (p ∷ ps) network_id device = ensure_in w device (p ∷ ps) (w.network network_id)

remove_flows : World → Option String → List Flow
remove_flows w device =
    map remove_l2 (keep (is_meant device) w.bigips)
    ++ map (λ v. remove_vcmp_l2 v (guest_names w)) w.vcmps

remove_in : World → Option String → Network → Run Flow (Unit {0})
unfolding submit_all remove_flows
remove_in w device bound = submit_all (remove_flows w device)
remove_in w device _ = pure tt

pub remove_l2_flow : World → String → Option String → Run Flow (Unit {0})
unfolding remove_in
remove_l2_flow w network_id device = remove_in w device (w.network network_id)

sync_in : World → Option String → List Port → Network → Run Flow (Unit {0})
unfolding submit_all
sync_in w device selfips bound = submit_all (
    map (λ b. sync_l2_selfips_and_subnet_routes b (w.selfips_for b selfips))
      (keep (is_meant device) w.bigips))
sync_in w device selfips _ = raise Exception.other

pub sync_l2_selfips_and_subnet_routes_flow :
    World → List Port → String → Option String → Run Flow (Unit {0})
unfolding sync_in
sync_l2_selfips_and_subnet_routes_flow w selfips network_id device =
    sync_in w device selfips (w.network network_id)
