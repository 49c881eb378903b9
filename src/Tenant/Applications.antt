-- ===== src/Tenant/Applications.antt =====
-- When a tenant can be declared, and what it holds.
use octavia_f5_provider_driv.Base.{
  ℕ, String, Bool, true, false, ◌&&◌, ◌||◌, not, ◌≡◌, refl, ◌∙◌, List, [], ◌∷◌, ◌++◌, map, all,
  keep, Result, ok, err, Bool-cases, Option, Option-cases, Exception, inl, inr,
}
use octavia_f5_provider_driv.Octavia.{Pool, Listener, LoadBalancer, is_pending_delete}
use octavia_f5_provider_driv.Runs.{Run, pure, outcome, perform, continue, ◌>>=◌}
use octavia_f5_provider_driv.Names.{application_name}
use octavia_f5_provider_driv.Monitor.{Conf}
use octavia_f5_provider_driv.Pool.{get_pool}
use octavia_f5_provider_driv.Tenant.{
  Failed, failed_listener, failed_member, is_gone, is_live_lb, is_live_listener, attached,
  attach_listener, attach_listeners, attach_pool, attach_pools, application, applications,
  get_tenant,
}

abbrev pub returns : {A : Type 0} → Result A → Bool
returns (ok _) = true
returns (err _) = false

and-true : (b : Bool) → (b && true) ≡ b
and-true true = refl
and-true false = refl

returns-continue :
    {A B : Type 0} (cs : List Failed) (r : Result A) (f : A → Run Failed B) (b : Bool)
    → ((a : A) → returns (f a).result ≡ b)
    → returns (continue cs r f).result ≡ (returns r && b)
returns-continue cs (ok a) f b h = h a
returns-continue cs (err e) f b h = refl

returns->>= :
    {A B : Type 0} (r : Run Failed A) (f : A → Run Failed B) (b : Bool)
    → ((a : A) → returns (f a).result ≡ b)
    → returns (r >>= f).result ≡ (returns r.result && b)
returns->>= r f b h = returns-continue r.calls r.result f b h

-- A run, and a pure function of what it returns.
returns-then :
    {A B C : Type 0} (r : Run Failed A) (s : Run Failed B) (g : A → B → C)
    → returns (r >>= λ a. s >>= λ b. pure (g a b)).result ≡ (returns r.result && returns s.result)
returns-then r s g =
    returns->>= r (λ a. s >>= λ b. pure (g a b)) (returns s.result)
      (λ a. returns->>= s (λ b. pure (g a b)) true (λ b. refl) ∙ and-true (returns s.result))

module _ {S : Type 0} (conf : Conf) (raises : Failed → Option Exception)
    (get_service : LoadBalancer → Listener → Result (List S)) where
  -- `set_error` returns.
  abbrev pub is_set : Failed → Bool
  is_set f = returns (outcome (raises f))

  -- The service was built, or its certificate is gone and the listener could be set to ERROR.
  abbrev pub tolerates : Listener → Result (List S) → Bool
  tolerates l (ok _) = true
  tolerates l (err e) = is_gone e && is_set (failed_listener l)

  abbrev pub builds : LoadBalancer → Listener → Bool
  builds lb l = not (is_live_listener l) || tolerates l (get_service lb l)

  returns-attached :
      (l : Listener) (r : Result (List S))
      → returns (attached conf raises get_service l r).result ≡ tolerates l r
  unfolding attached
  returns-attached l (ok es) = refl
  returns-attached l (err e) = elim (Bool-cases (is_gone e)) [
    | inl h ↦ rw h (
        returns-continue (failed_listener l ∷ []) (outcome (raises (failed_listener l))) _ true
          (λ _. refl)
        ∙ and-true _)
    | inr h ↦ rw h
  ]

  returns-attach_listener :
      (lb : LoadBalancer) (l : Listener)
      → returns (attach_listener conf raises get_service lb l).result ≡ builds lb l
  unfolding attach_listener
  returns-attach_listener lb l = elim (Bool-cases (is_pending_delete l.provisioning_status)) [
    | inl gone ↦ rw gone
    | inr live ↦ rw (live, returns-attached l (get_service lb l))
  ]

  returns-attach_listeners :
      (lb : LoadBalancer) (ls : List Listener)
      → returns (attach_listeners conf raises get_service lb ls).result ≡ all ls (builds lb)
  unfolding attach_listeners
  returns-attach_listeners lb [] = refl
  returns-attach_listeners lb (l ∷ ls) =
      returns-then (attach_listener conf raises get_service lb l)
        (attach_listeners conf raises get_service lb ls) (λ es rest. es ++ rest)
      ∙ rw (returns-attach_listener lb l, returns-attach_listeners lb ls)

  -- Each member that cannot be declared could be set to ERROR.
  abbrev pub sets : List String → Pool → Bool
  sets ips p =
      is_pending_delete p.provisioning_status
      || all (map failed_member (get_pool conf p ips).1) is_set

  returns-perform : (fs : List Failed) → returns (perform raises fs).result ≡ all fs is_set
  returns-perform [] = refl
  returns-perform (f ∷ fs) = elim (Option-cases (raises f)) [
    | inl h ↦ rw h (returns-perform fs)
    | inr h ↦ rw h.1 refl
  ]

  returns-attach_pool :
      (ips : List String) (p : Pool)
      → returns (attach_pool conf raises get_service ips p).result ≡ sets ips p
  unfolding attach_pool
  returns-attach_pool ips p = elim (Bool-cases (is_pending_delete p.provisioning_status)) [
    | inl gone ↦ rw gone
    | inr live ↦
        let failed = perform raises (map failed_member (get_pool conf p ips).1) in
        rw live (
          returns-continue failed.calls failed.result _ true (λ _. refl)
          ∙ and-true (returns failed.result)
          ∙ returns-perform (map failed_member (get_pool conf p ips).1))
  ]

  returns-attach_pools :
      (ips : List String) (ps : List Pool)
      → returns (attach_pools conf raises get_service ips ps).result ≡ all ps (sets ips)
  unfolding attach_pools
  returns-attach_pools ips [] = refl
  returns-attach_pools ips (p ∷ ps) =
      returns-then (attach_pool conf raises get_service ips p)
        (attach_pools conf raises get_service ips ps) (λ es rest. es ++ rest)
      ∙ rw (returns-attach_pool ips p, returns-attach_pools ips ps)

  returns-application :
      (ips : List String) (lb : LoadBalancer)
      → returns (application conf raises get_service ips lb).result
        ≡ (all lb.listeners (builds lb) && all lb.pools (sets ips))
  unfolding application
  returns-application ips lb =
      returns-then (attach_listeners conf raises get_service lb lb.listeners)
        (attach_pools conf raises get_service ips lb.pools)
        (λ services pools. record { label = lb.id; entities = services ++ pools })
      ∙ rw (returns-attach_listeners lb lb.listeners, returns-attach_pools ips lb.pools)

  abbrev pub builds_all : List String → LoadBalancer → Bool
  builds_all ips lb =
      not (is_live_lb lb) || (all lb.listeners (builds lb) && all lb.pools (sets ips))

  returns-applications :
      (ips : List String) (lbs : List LoadBalancer)
      → returns (applications conf raises get_service ips lbs).result ≡ all lbs (builds_all ips)
  unfolding applications
  returns-applications ips [] = refl
  returns-applications ips (lb ∷ lbs) =
      elim (Bool-cases (is_pending_delete lb.provisioning_status)) [
        | inl gone ↦ rw (gone, returns-applications ips lbs)
        | inr live ↦ rw live (
            returns-then (application conf raises get_service ips lb)
              (applications conf raises get_service ips lbs)
              (λ app rest. (application_name lb.id, app) ∷ rest)
            ∙ rw (returns-application ips lb, returns-applications ips lbs))
      ]

  -- The addresses that no member may have.
  abbrev pub ips_to_skip : List LoadBalancer → List String → List String
  ips_to_skip lbs self_ips =
      map (λ (lb : LoadBalancer). lb.vip.ip_address) (keep is_live_lb lbs) ++ self_ips

  -- The declaration of a tenant returns exactly if, for each load balancer that is not
  -- PENDING_DELETE: the service of each listener that is not PENDING_DELETE is built, or raises that
  -- its certificate is gone from the key store and the listener can be set to ERROR; and each member
  -- that a pool which is not PENDING_DELETE cannot declare can be set to ERROR. Any other exception
  -- of a service, and any exception of setting an ERROR, ends it.
  pub returns-get_tenant :
      (segmentation_id : ℕ) (lbs : List LoadBalancer) (self_ips : List String)
      → returns (get_tenant conf raises get_service segmentation_id lbs self_ips).result
        ≡ all lbs (builds_all (ips_to_skip lbs self_ips))
  unfolding get_tenant
  returns-get_tenant segmentation_id lbs self_ips =
      let ips = ips_to_skip lbs self_ips in
      returns->>= (applications conf raises get_service ips lbs) _ true (λ apps. refl)
      ∙ rw (returns-applications ips lbs) (and-true (all lbs (builds_all ips)))
