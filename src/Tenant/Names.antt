-- ===== src/Tenant/Names.antt =====
-- The applications of a tenant.
use octavia_f5_provider_driv.Base.{
  ℕ, String, false, ◌≡◌, refl, ap, sym, List, [], ◌∷◌, ◌++◌, map, keep, Result, Option, Exception,
  ok, err, Bool-cases, inl, inr,
}
use octavia_f5_provider_driv.Octavia.{Listener, LoadBalancer, is_pending_delete}
use octavia_f5_provider_driv.Runs.{Run, pure, continue, ◌>>=◌}
use octavia_f5_provider_driv.Names.{application_name}
use octavia_f5_provider_driv.Monitor.{Conf}
use octavia_f5_provider_driv.Tenant.{
  Failed, Application, Tenant, is_live_lb, application, applications, get_tenant,
}

-- A run that returned, returned on the way.
abbrev Returned : {A B : Type 0} → Result A → (A → Run Failed B) → B → Type 0
Returned {A = A} r f b = (a : A) × (r ≡ ok a) × ((f a).result ≡ ok b)

continue-Returned :
    {A B : Type 0} (cs : List Failed) (r : Result A) (f : A → Run Failed B) (b : B)
    → (continue cs r f).result ≡ ok b
    → Returned r f b
continue-Returned cs (ok a) f b h = (a, refl, h)
continue-Returned cs (err e) f b h = cc

pure-eq : {A : Type 0} (a b : A) → (pure {C = Failed} a).result ≡ ok b → a ≡ b
pure-eq a b h = cc

module _ {S : Type 0} (conf : Conf) (raises : Failed → Option Exception)
    (get_service : LoadBalancer → Listener → Result (List S)) where
  abbrev names : List (String × Application S) → List String
  names apps = map (λ (a : String × Application S). a.0) apps

  abbrev expected : List LoadBalancer → List String
  expected lbs = map (λ (lb : LoadBalancer). application_name lb.id) (keep is_live_lb lbs)

  names-applications :
      (ips : List String) (lbs : List LoadBalancer) (apps : List (String × Application S))
      → (applications conf raises get_service ips lbs).result ≡ ok apps
      → names apps ≡ expected lbs
  unfolding applications
  names-applications ips [] apps h = rw (sym (pure-eq [] apps h))
  names-applications ips (lb ∷ lbs) apps h =
      elim (Bool-cases (is_pending_delete lb.provisioning_status)) [
        | inl gone ↦ rw gone (names-applications ips lbs apps (rw gone at h))
        | inr live ↦ rw live (step live (names-applications ips lbs))
      ]
    where
      step :
          is_pending_delete lb.provisioning_status ≡ false
          → ((rest : List (String × Application S))
              → (applications conf raises get_service ips lbs).result ≡ ok rest
              → names rest ≡ expected lbs)
          → names apps ≡ application_name lb.id ∷ expected lbs
      step live further =
          let run = application conf raises get_service ips lb in
          let others = applications conf raises get_service ips lbs in
          let (app, _, after_app) =
            continue-Returned run.calls run.result
              (λ app. others >>= λ rest. pure ((application_name lb.id, app) ∷ rest)) apps
              (rw live at h) in
          let (rest, found, end) =
            continue-Returned others.calls others.result
              (λ rest. pure ((application_name lb.id, app) ∷ rest)) apps after_app in
          rw (sym (pure-eq ((application_name lb.id, app) ∷ rest) apps end))
            (ap (λ ns. application_name lb.id ∷ ns) (further rest found))

  -- A tenant that is declared has one application for each load balancer that is not
  -- PENDING_DELETE, in their order and by their names.
  names-get_tenant :
      (segmentation_id : ℕ) (lbs : List LoadBalancer) (self_ips : List String) (t : Tenant S)
      → (get_tenant conf raises get_service segmentation_id lbs self_ips).result ≡ ok t
      → names t.applications ≡ expected lbs
  unfolding get_tenant
  names-get_tenant segmentation_id lbs self_ips t h =
      let ips = map (λ (lb : LoadBalancer). lb.vip.ip_address) (keep is_live_lb lbs) ++ self_ips in
      let run = applications conf raises get_service ips lbs in
      let (apps, found, end) = continue-Returned run.calls run.result _ t h in
      rw (sym (ap (λ (u : Tenant S). u.applications) (pure-eq _ t end)))
        (names-applications ips lbs apps found)
