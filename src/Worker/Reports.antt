-- ===== src/Worker/Reports.antt =====
-- When the statuses of load balancers are reported.
use octavia_f5_provider_driv.Base.{
  String, Bool, true, false, ◌≡◌, ◌⊎◌, inl, inr, refl, Option, List, ◌++◌, All, All-append,
  All-left, Exception, err, Bool-cases,
}
use octavia_f5_provider_driv.Octavia.{LoadBalancer}
use octavia_f5_provider_driv.Runs.{Run, perform, perform-append, perform-cases, Returns, Stopped}
use octavia_f5_provider_driv.Worker.{
  Port, Call, update_status, World, all_deleted, all_new_or_gone, any_new_or_gone, f5sync,
}
use octavia_f5_provider_driv.Worker.Plans.{l2_plan, report_plan, sync_plan, f5sync-perform}

-- A call other than `update_status`.
abbrev pub is_report : Call → Bool
is_report (update_status _) = true
is_report _ = false

abbrev pub NoReport : Call → Type 0
NoReport c = is_report c ≡ false

l2_plan-NoReport :
    (network_id : String) (device : Option String) (selfips : List Port) (lbs : List LoadBalancer)
    → All NoReport (l2_plan network_id device selfips lbs)
l2_plan-NoReport network_id device selfips lbs = elim (Bool-cases (all_new_or_gone lbs)) [
  | inl every ↦ rw every (refl, tt)
  | inr some_stay ↦ elim (Bool-cases (any_new_or_gone lbs)) [
    | inl one ↦ rw (some_stay, one) (refl, tt)
    | inr none_at_all ↦ rw (some_stay, none_at_all) tt
  ]
]

sync_plan-NoReport :
    (w : World) (network_id : String) (device : Option String)
    → All NoReport (sync_plan w network_id device)
sync_plan-NoReport w network_id device =
    let lbs = w.loadbalancers network_id in
    (
      refl,
      elim (Bool-cases (all_deleted lbs)) [
        | inl gone ↦ rw gone (refl, (refl, (refl, tt)))
        | inr stays ↦ rw stays (
            All-append NoReport _ _ (l2_plan-NoReport network_id device (w.selfips lbs) lbs)
              (refl, tt))
      ],
    )

-- The run raises, and does not call `update_status`.
pub record Unreported (r : Run Call (Unit {0})) : Type 0 where
  pub exception : Exception
  pub raises : r.result ≡ err exception
  pub no_report : All NoReport r.calls

Stopped-Unreported :
    (w : World) (xs ys : List Call)
    → All NoReport xs
    → Stopped w.raises xs
    → Unreported (perform w.raises (xs ++ ys))
Stopped-Unreported w xs ys h s =
    rw (perform-append w.raises xs ys, s.stops)
      (record {
        exception = s.exception;
        raises = refl;
        no_report = All-left NoReport s.made s.left (rw s.splits at h);
      })

-- Either every call that prepares the network and sends the declaration returned, or the run raises
-- and does not call `update_status`. The ERROR statuses that `tenant_update` reports itself, for
-- listeners and members that it cannot declare, are a part of that call, and are not meant here.
pub f5sync-Unreported :
    (w : World) (network_id : String) (device : Option String)
    → All (Returns w.raises) (sync_plan w network_id device)
      ⊎ Unreported (f5sync w network_id device)
f5sync-Unreported w network_id device =
    let plan = sync_plan w network_id device in
    let reports = report_plan (w.loadbalancers network_id) in
    elim (perform-cases w.raises plan) [
      | inl done ↦ inl done.0
      | inr stopped ↦ inr (
          rw (f5sync-perform w network_id device)
            (Stopped-Unreported w plan reports (sync_plan-NoReport w network_id device) stopped))
    ]
