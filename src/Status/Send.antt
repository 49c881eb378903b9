-- ===== src/Status/Send.antt =====
-- What a status update sends, how often, and which amphora entries it marks as deleted.
use octavia_f5_provider_driv.Base.{
  ℕ, Bool, false, ◌||◌, ◌&&◌, all, Bool-cases, inl, inr, ◌≡◌, refl, Option, none, some, List, [],
  ◌∷◌, ◌++◌, map, append-nil, append_assoc, arith, if◌then◌else◌, All, All-append, keep,
}
use octavia_f5_provider_driv.Octavia.{
  ProvisioningStatus, Member, HealthMonitor, Pool, L7Rule, L7Policy, Listener, LoadBalancer,
  is_pending_delete,
}
use octavia_f5_provider_driv.Status.{
  Obj, Status, Call, update_loadbalancer_status, amphora_deleted, get_obj_type, status_obj,
  loadbalancer_obj, amphora_updates, Answers, returns_in, ran, retry, update_status_to_octavia,
  update_status,
}
use octavia_f5_provider_driv.Status.Traversal.{
  l7rule_objs, l7policy_objs, listener_objs, member_objs, health_monitor_objs, pool_objs,
  child_objs, new_status, report, reports, loadbalancer_reports, all_reports,
  collect_status-eq-reports,
}

abbrev IsChild : Obj → Type 0
IsChild o = (s : ProvisioningStatus) → amphora_updates (report o (some s)) ≡ []

amphora_updates-append :
    (xs ys : Status) → amphora_updates (xs ++ ys) ≡ amphora_updates xs ++ amphora_updates ys
unfolding amphora_updates
amphora_updates-append [] ys = refl
amphora_updates-append ((t, s) ∷ xs) ys = simp (amphora_updates-append xs ys, append_assoc)

report-IsChild :
    (o : Obj) (n : Option ProvisioningStatus) → IsChild o → amphora_updates (report o n) ≡ []
unfolding amphora_updates
report-IsChild o none h = refl
report-IsChild o (some s) h = h s

reports-IsChild : (c : Bool) (os : List Obj) → All IsChild os → amphora_updates (reports c os) ≡ []
reports-IsChild c [] h = unfold amphora_updates in refl
reports-IsChild c (o ∷ os) h = rw (
  amphora_updates-append (report o (new_status c o.provisioning_status)) (reports c os),
  report-IsChild o (new_status c o.provisioning_status) h.0,
  reports-IsChild c os h.1,
)

l7rules-IsChild : (rs : List L7Rule) → All IsChild (l7rule_objs rs)
unfolding amphora_updates get_obj_type
l7rules-IsChild [] = tt
l7rules-IsChild (r ∷ rs) = (λ s. refl, l7rules-IsChild rs)

l7policies-IsChild : (ps : List L7Policy) → All IsChild (l7policy_objs ps)
unfolding amphora_updates get_obj_type
l7policies-IsChild [] = tt
l7policies-IsChild (p ∷ ps) =
    (λ s. refl, All-append IsChild _ _ (l7rules-IsChild p.l7rules) (l7policies-IsChild ps))

listeners-IsChild : (ls : List Listener) → All IsChild (listener_objs ls)
unfolding amphora_updates get_obj_type
listeners-IsChild [] = tt
listeners-IsChild (l ∷ ls) =
    (λ s. refl, All-append IsChild _ _ (l7policies-IsChild l.l7policies) (listeners-IsChild ls))

members-IsChild : (ms : List Member) → All IsChild (member_objs ms)
unfolding amphora_updates get_obj_type
members-IsChild [] = tt
members-IsChild (m ∷ ms) = (λ s. refl, members-IsChild ms)

health_monitor-IsChild : (h : Option HealthMonitor) → All IsChild (health_monitor_objs h)
unfolding amphora_updates get_obj_type
health_monitor-IsChild none = tt
health_monitor-IsChild (some h) = (λ s. refl, tt)

pools-IsChild : (ps : List Pool) → All IsChild (pool_objs ps)
unfolding amphora_updates get_obj_type
pools-IsChild [] = tt
pools-IsChild (p ∷ ps) = (
  λ s. refl,
  All-append IsChild _ _ (members-IsChild p.members)
      (All-append IsChild _ _ (health_monitor-IsChild p.health_monitor) (pools-IsChild ps)),
)

child_objs-IsChild : (lb : LoadBalancer) → All IsChild (child_objs lb)
child_objs-IsChild lb =
    All-append IsChild _ _ (listeners-IsChild lb.listeners) (pools-IsChild lb.pools)

-- The amphora entries of the load balancers that are PENDING_DELETE.
abbrev pub deleted_amphorae : List LoadBalancer → List Call
deleted_amphorae lbs =
    map (λ lb. amphora_deleted lb.id)
      (keep (λ (lb : LoadBalancer). is_pending_delete lb.provisioning_status) lbs)

own-amphora :
    (lb : LoadBalancer)
    → amphora_updates (report (loadbalancer_obj lb) (new_status false lb.provisioning_status))
      ≡ deleted_amphorae (lb ∷ [])
unfolding amphora_updates get_obj_type status_obj
own-amphora lb = ground arith

amphora_updates-reports :
    (lbs : List LoadBalancer) → amphora_updates (all_reports lbs) ≡ deleted_amphorae lbs
amphora_updates-reports [] = unfold amphora_updates in refl
amphora_updates-reports (lb ∷ lbs) =
    rw
      (
        amphora_updates-append (loadbalancer_reports lb) (all_reports lbs),
        amphora_updates-append
            (report (loadbalancer_obj lb) (new_status false lb.provisioning_status))
            (reports (is_pending_delete lb.provisioning_status) (child_objs lb)),
        reports-IsChild (is_pending_delete lb.provisioning_status) (child_objs lb)
            (child_objs-IsChild lb),
        own-amphora lb,
        amphora_updates-reports lbs,
      )
      (ground arith)

-- One attempt: what it sends, and whether it returns.
module _ (a : Answers) (lbs : List LoadBalancer) where
  abbrev pub sent : ℕ → List Call
  sent n =
      update_loadbalancer_status (all_reports lbs) ∷ (ran (returns_in a n) (deleted_amphorae lbs)).0

  abbrev pub returned : ℕ → Bool
  returned n = a.succeeds n && all (deleted_amphorae lbs) (returns_in a n)

  ran-all : (f : Call → Bool) (cs : List Call) → (ran f cs).1 ≡ all cs f
  unfolding ran
  ran-all f [] = refl
  ran-all f (c ∷ cs) = elim (Bool-cases (f c)) [ inl h ↦ rw h (ran-all f cs) | inr h ↦ rw h refl ]

  -- An attempt sends the reports of all load balancers in one call and then, whether or not it
  -- returned, marks the amphora entries of the PENDING_DELETE load balancers, and of no others, as
  -- deleted, up to the first of these updates that raises. It has returned if the call and all
  -- updates did. There are attempts until one returns, at most three, and the update fails exactly
  -- when none of the three returned.
  pub update_status-eq-attempts : update_status a lbs ≡ (
    sent 0 ++ (if returned 0 then [] else sent 1 ++ (if returned 1 then [] else sent 2)),
    returned 0 || (returned 1 || returned 2),
  )
  unfolding update_status update_status_to_octavia retry
  update_status-eq-attempts =
      let deleted = deleted_amphorae lbs in
      rw
        (
          collect_status-eq-reports lbs,
          amphora_updates-reports lbs,
          ran-all (returns_in a 0) deleted,
          ran-all (returns_in a 1) deleted,
          ran-all (returns_in a 2) deleted,
        )
        (elim (Bool-cases (returned 0)) [
          | inl h ↦ rw (h, append-nil (sent 0)) refl
          | inr h ↦ elim (Bool-cases (returned 1)) [
            | inl k ↦ rw (h, k, append-nil (sent 1)) refl
            | inr k ↦ elim (Bool-cases (returned 2)) [
              | inl m ↦ rw (h, k, m) refl
              | inr m ↦ rw (h, k, m, append-nil (ran (returns_in a 2) deleted).0) refl
            ]
          ]
        ])
