-- ===== src/Status/Examples.antt =====
-- The status updates of a new load balancer and of one that goes.
use octavia_f5_provider_driv.Base.{ltb, List, ◌++◌, if◌then◌else◌, ◌≡◌, ◌||◌, ◌∷◌, []}
use octavia_f5_provider_driv.Octavia.{LoadBalancer}
use octavia_f5_provider_driv.Samples.{lb_new, lb_gone}
use octavia_f5_provider_driv.Status.{collect_status, Answers, update_status}
use octavia_f5_provider_driv.Status.Traversal.{all_reports, collect_status-eq-reports}
use octavia_f5_provider_driv.Status.Send.{sent, returned, update_status-eq-attempts}

collect_status-eq-reports_example :
    collect_status (lb_new ∷ lb_gone ∷ []) ≡ all_reports (lb_new ∷ lb_gone ∷ [])
collect_status-eq-reports_example = collect_status-eq-reports (lb_new ∷ lb_gone ∷ [])

-- The second call returns, but not the update of the amphora entry; the third attempt returns.
abbrev answers : Answers
answers = record { succeeds = ltb 0; updates = λ n id. ltb 1 n }

abbrev both : List LoadBalancer
both = lb_new ∷ lb_gone ∷ []

update_status-eq-attempts_example : update_status answers both ≡ (
  sent answers both 0
      ++ (if returned answers both 0
          then []
          else sent answers both 1
            ++ (if returned answers both 1 then [] else sent answers both 2)),
  returned answers both 0 || (returned answers both 1 || returned answers both 2),
)
update_status-eq-attempts_example = update_status-eq-attempts answers both
