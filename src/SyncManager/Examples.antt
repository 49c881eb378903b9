-- ===== src/SyncManager/Examples.antt =====
-- Two devices, of which the active one does not answer.
use octavia_f5_provider_driv.Base.{
  ℕ, zero, Bool, ◌≡◌, refl, true, false, none, [], ◌∷◌, Result, ok, err, connection_error, timeout,
  retry_error,
}
use octavia_f5_provider_driv.Samples.{lb_kept}
use octavia_f5_provider_driv.SyncManager.{
  Device, Conf, SyncManager, Post, World, Update, failover, tenant_update, update_post, post_of,
  passive,
}
use octavia_f5_provider_driv.SyncManager.Attempts.{
  SentTo, repeat, tenant_update-SentTo, tenant_update-connection_errors, tenant_update-timeout,
}
use octavia_f5_provider_driv.SyncManager.Targets.{Chooses, failover-Chooses}

abbrev first : Device
first = record { index = 0; hostname = "a" }

abbrev second : Device
second = record { index = 1; hostname = "b" }

abbrev conf : Conf
conf = record { migration = false; dry_run = false; sync_to_group = "group" }

abbrev manager : SyncManager
manager = record { bigips = first ∷ second ∷ []; active = first }

abbrev update : Update
update = record {
  network_id = "net1";
  device = none;
  self_ips = "10.0.0.2" ∷ [];
  loadbalancers = lb_kept ∷ [];
}

abbrev is_first : Device → Bool
is_first d = elim d.index [ zero ↦ true | _ ↦ false ]

-- A world in which every request ends in this way.
abbrev world : (ℕ → Result Bool) → World
world answer = record { is_active = is_first; get_all_by_network = λ _. []; post = λ n _. answer n }

abbrev request : SyncManager → Post
request m = post_of conf m "net1" none ("10.0.0.2" ∷ []) (lb_kept ∷ [])

abbrev times_out_once : ℕ → Result Bool
times_out_once zero = err timeout
times_out_once _ = ok true

failover-Chooses_example :
    Chooses
      (world times_out_once)
      false
      (first ∷ second ∷ [])
      (failover (world times_out_once) false (first ∷ second ∷ []))
failover-Chooses_example = failover-Chooses (world times_out_once) false first second []

tenant_update-SentTo_example :
    SentTo manager
      (tenant_update conf (world times_out_once) manager update).0
      none
      (tenant_update conf (world times_out_once) manager update).1.posts
tenant_update-SentTo_example = tenant_update-SentTo conf (world times_out_once) manager update

tenant_update-connection_errors_example :
    tenant_update conf (world (λ _. err connection_error)) manager update
    ≡ (manager, record { posts = repeat 15 (request manager); result = err retry_error })
unfolding update_post
tenant_update-connection_errors_example =
    tenant_update-connection_errors conf (world (λ _. err connection_error)) manager update
      (request manager) refl (λ _. refl)

tenant_update-timeout_example : tenant_update conf (world times_out_once) manager update ≡ (
  record manager { active = second },
  record {
    posts = request manager ∷ request (record manager { active = second }) ∷ [];
    result = ok true;
  },
)
unfolding update_post passive
tenant_update-timeout_example =
    tenant_update-timeout conf (world times_out_once) manager update (request manager)
      (request (record manager { active = second })) second true refl refl refl refl refl refl
