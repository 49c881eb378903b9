-- ===== src/L2/Failures.antt =====
-- Which failures of flows are errors.
use octavia_f5_provider_driv.Base.{
  String, Bool, true, false, ◌≡◌, refl, Option, some, List, [], ◌∷◌, ◌++◌, ◌==◌, map, any, all, mem,
  any-append, keep, ok, arith, eq_iff, Bool-cases, inl, inr,
}
use octavia_f5_provider_driv.Runs.{Run, pure, ◌>>◌}
use octavia_f5_provider_driv.L2.{
  Port, Flow, remove_l2, remove_vcmp_l2, sync_l2_selfips_and_subnet_routes, bound, World, is_meant,
  guest_names, ensure_bigip, ensure_bigips, submit_all, is_of_bigip, has_failed, check_failed,
  submit_ensure, checked, ensure_in, ensure_l2_flow, remove_flows, remove_l2_flow,
  sync_l2_selfips_and_subnet_routes_flow,
}

submit_all-eq : (fs : List Flow) → submit_all fs ≡ record { calls = fs; result = ok tt }
unfolding submit_all
submit_all-eq [] = refl
submit_all-eq (f ∷ fs) = rw (submit_all-eq fs)

-- Removing the network and syncing its SelfIPs never raise for a flow that fails: in a network with
-- a bound segment they start one flow for each device that is meant, and, when removing, one for
-- each VCMP, and return.
remove_l2_flow-returns :
    (w : World) (selfips : List Port) (network_id : String) (device : Option String)
    → w.network network_id ≡ bound
    → (remove_l2_flow w network_id device ≡ record {
      calls =
          map remove_l2 (keep (is_meant device) w.bigips)
          ++ map (λ v. remove_vcmp_l2 v (guest_names w)) w.vcmps;
      result = ok tt;
    })
      × (sync_l2_selfips_and_subnet_routes_flow w selfips network_id device ≡ record {
        calls =
            map
              (λ b. sync_l2_selfips_and_subnet_routes b (w.selfips_for b selfips))
              (keep (is_meant device) w.bigips);
        result = ok tt;
      })
unfolding remove_l2_flow sync_l2_selfips_and_subnet_routes_flow
remove_l2_flow-returns w selfips network_id device h = (
  rw (h, submit_all-eq (remove_flows w device)),
  rw (
    h,
    submit_all-eq (
        map (λ b. sync_l2_selfips_and_subnet_routes b (w.selfips_for b selfips))
          (keep (is_meant device) w.bigips)),
  ),
)

-- No flow was started for this device.
abbrev NoneOf : String → List Flow → Type 0
NoneOf b fs = any fs (is_of_bigip b) ≡ false

none_failed :
    (w : World) (b : String) (fs : List Flow) → NoneOf b fs → has_failed w is_of_bigip fs b ≡ false
none_failed w b [] h = refl
none_failed w b (f ∷ fs) h = ground (arith, none_failed w b fs)

not_all :
    (b : String) (bs : List String) (p : String → Bool)
    → mem b bs ≡ true
    → p b ≡ false
    → all bs p ≡ false
not_all b [] p h k = absurd (ground arith)
not_all b (c ∷ bs) p h k = elim (Bool-cases (c == b)) [
  | inl same ↦ rw ((eq_iff c b).0 same, k)
  | inr other ↦ rw (not_all b bs p (rw other at h) k) (ground arith)
]

-- The run returns without a flow for this device.
record Spares (b : String) (r : Run Flow (Unit {0})) : Type 0 where
  returns : r.result ≡ ok tt
  spares : NoneOf b r.calls

Spares->> : (b : String) (r s : Run Flow (Unit {0})) → Spares b r → Spares b s → Spares b (r >> s)
Spares->> b r s h k = record {
  returns = rw (h.returns, k.returns);
  spares = rw h.returns (rw (any-append r.calls s.calls (is_of_bigip b), h.spares, k.spares));
}

module _ (w : World) (selfips : List Port) (d b : String) (p : Port) (ps : List Port)
    (h : w.selfips_for d selfips ≡ p ∷ ps) (spared : is_meant (some d) b ≡ false) where
  meant-eq : (c : String) → is_meant (some d) c ≡ true → c ≡ d
  meant-eq c m = ground (arith, eq_iff c d, eq_iff d "")

  d_is_not_b : d == b ≡ false
  d_is_not_b = ground (arith, eq_iff d b, eq_iff b d)

  ensure_bigip-Spares : (c : String) → c ≡ d → Spares b (ensure_bigip c (w.selfips_for c selfips))
  unfolding ensure_bigip
  ensure_bigip-Spares c e = rw (e, h) (record { returns = refl; spares = rw d_is_not_b })

  ensure_bigips-Spares : (bs : List String) → Spares b (ensure_bigips w (some d) selfips bs)
  unfolding ensure_bigips
  ensure_bigips-Spares [] = record { returns = refl; spares = refl }
  ensure_bigips-Spares (c ∷ bs) = elim (Bool-cases (is_meant (some d) c)) [
    | inl m ↦ rw m (
        Spares->> b (ensure_bigip c (w.selfips_for c selfips)) (ensure_bigips w (some d) selfips bs)
          (ensure_bigip-Spares c (meant-eq c m)) (ensure_bigips-Spares bs))
    | inr m ↦ rw m (
        Spares->> b (pure tt) (ensure_bigips w (some d) selfips bs)
          (record { returns = refl; spares = refl }) (ensure_bigips-Spares bs))
  ]

  submit_ensure-Spares : w.vcmps ≡ [] → Spares b (submit_ensure w (some d) selfips)
  unfolding submit_ensure submit_all
  submit_ensure-Spares no_vcmps = rw no_vcmps (
      Spares->> b (ensure_bigips w (some d) selfips w.bigips) (pure tt)
        (ensure_bigips-Spares w.bigips) (record { returns = refl; spares = refl }))

checked-Spares :
    (w : World) (b : String) (r : Run Flow (Unit {0}))
    → w.vcmps ≡ []
    → mem b w.bigips ≡ true
    → Spares b r
    → (checked w r).result ≡ ok tt
unfolding checked check_failed
checked-Spares w b r no_vcmps among h =
    let spared =
      not_all b w.bigips (has_failed w is_of_bigip r.calls) among
        (none_failed w b r.calls h.spares) in
    rw (h.returns, spared, no_vcmps) (ground arith)

-- Configuring the network for one device alone never raises, though its flow may fail, if there is
-- another device and no VCMP: an error is raised only if the flows of all devices failed, and no
-- flow is started for the other one. The network has a bound segment, and the device a SelfIP.
pub ensure_l2_flow-one_device :
    (w : World) (q : Port) (qs : List Port) (network_id d b : String) (p : Port) (ps : List Port)
    → w.network network_id ≡ bound
    → w.vcmps ≡ []
    → mem b w.bigips ≡ true
    → is_meant (some d) b ≡ false
    → w.selfips_for d (q ∷ qs) ≡ p ∷ ps
    → (ensure_l2_flow w (q ∷ qs) network_id (some d)).result ≡ ok tt
unfolding ensure_l2_flow ensure_in
ensure_l2_flow-one_device w q qs network_id d b p ps has_segment no_vcmps among spared h =
    rw has_segment (
      checked-Spares w b (submit_ensure w (some d) (q ∷ qs)) no_vcmps among
        (submit_ensure-Spares w (q ∷ qs) d b p ps h spared no_vcmps))
