-- ===== src/SyncManager.antt =====
-- octavia_f5/controller/worker/sync_manager.py, with `RunHookOnException` of
-- octavia_f5/utils/decorators.py: which device a declaration is sent to, and how often.
pub mod Attempts
pub mod Targets
mod Examples
use octavia_f5_provider_driv.Base.{
  ℕ, zero, suc, ◌+◌, String, Bool, true, false, ◌&&◌, not, Option, none, some, List, [], ◌∷◌, ◌++◌,
  ◌==◌, eqb, keep, Exception, Result, ok, err, failover_exception, connection_error, timeout,
  retry_error, as3_exception, if◌then◌else◌,
}
use octavia_f5_provider_driv.Octavia.{LoadBalancer}
use octavia_f5_provider_driv.Names.{tenant_name}

-- A REST client. Clients are compared by identity, which the index stands for.
pub record Device : Type 0 where
  pub index : ℕ
  pub hostname : String

-- "" is an option that is not set.
pub record Conf : Type 0 where
  pub migration : Bool
  pub dry_run : Bool
  pub sync_to_group : String

pub record SyncManager : Type 0 where
  pub bigips : List Device
  pub active : Device

-- What a declaration is made of, and where it is posted. The device gets the declaration that
-- `AS3DeclarationManager` computes from the load balancers and the addresses of the SelfIPs.
pub record Post : Type 0 where
  pub device : Device
  pub tenant : String
  pub loadbalancers : List LoadBalancer
  pub self_ips : List String
  pub is_dry_run : Bool
  pub sync_to_group : String

-- The outside: what a device's status, the database and the n-th request answer; true is a response
-- that is ok.
pub record World : Type 0 where
  pub is_active : Device → Bool
  pub get_all_by_network : String → List LoadBalancer
  pub post : ℕ → Post → Result Bool

abbrev pub same_device : Device → Device → Bool
same_device a b = eqb a.index b.index

abbrev pub find_device : List Device → String → Option Device
find_device [] name = none
find_device (b ∷ bs) name = if b.hostname == name then some b else find_device bs name

-- `bigip(device)`: the active device for no device and for an unknown one.
pub bigip : SyncManager → Option String → Device
bigip s none = s.active
bigip s (some name) = elim (find_device s.bigips name) [ none ↦ s.active | some b ↦ b ]

-- next(iter(devices))
abbrev pub first_or : Exception → List Device → Result Device
first_or e [] = err e
first_or e (b ∷ _) = ok b

-- `passive()`
pub passive : SyncManager → Option Device
passive s = elim (keep (λ b. not (same_device b s.active)) s.bigips) [ [] ↦ none | b ∷ _ ↦ some b ]

abbrev pub has_state : World → Bool → Device → Bool
has_state w state b = if state then w.is_active b else not (w.is_active b)

-- `failover(active_device)`, on the list of devices: the new target.
pub failover : World → Bool → List Device → Result Device
failover w active_device (b ∷ []) = ok b
failover w active_device bigips =
    first_or failover_exception (keep (has_state w active_device) bigips)

-- `force_failover`; `next` on no other device raises StopIteration.
pub force_failover : Conf → SyncManager → Result SyncManager
force_failover conf s =
    if conf.migration
    then ok s
    else elim (first_or Exception.other (keep (λ b. not (same_device b s.active)) s.bigips)) [
      | ok b ↦ ok (record s { active = b })
      | err e ↦ err e
    ]

-- A call of `tenant_update`: no load balancers are those of the database.
pub record Update : Type 0 where
  pub network_id : String
  pub device : Option String
  pub self_ips : List String
  pub loadbalancers : List LoadBalancer

abbrev no_device : Option String → Bool
no_device none = true
no_device (some d) = d == ""

-- `not migration and not device and sync_to_group`
pub group_of : Conf → Option String → String
group_of conf device = if not conf.migration && no_device device then conf.sync_to_group else ""

abbrev pub post_of :
    Conf → SyncManager → String → Option String → List String → List LoadBalancer → Post
post_of conf s network_id device ips lbs = record {
  device = bigip s device;
  tenant = tenant_name network_id;
  loadbalancers = lbs;
  self_ips = ips;
  is_dry_run = conf.dry_run;
  sync_to_group = group_of conf device;
}

-- What one attempt posts, if it gets that far: the body of `tenant_update` up to the post.
pub update_post : Conf → World → SyncManager → Update → Result Post
unfolding bigip group_of tenant_name
update_post conf w s u = elim u.loadbalancers [
  | lb ∷ lbs ↦ ok (post_of conf s u.network_id u.device u.self_ips (lb ∷ lbs))
  | [] ↦ elim (w.get_all_by_network u.network_id) [
    | [] ↦ err as3_exception
    | lb ∷ lbs ↦ ok (post_of conf s u.network_id u.device u.self_ips (lb ∷ lbs))
  ]
]

-- The body of `tenant_delete` up to the post: a tenant without load balancers.
pub delete_post : Conf → SyncManager → String → Option String → Result Post
unfolding bigip group_of tenant_name
delete_post conf s network_id device = ok (post_of conf s network_id device [] [])

-- The requests that were sent, and how the call ended.
pub record Sent : Type 0 where
  pub posts : List Post
  pub result : Result Bool

-- `retry_if_exception_type(ConnectionError)`
abbrev pub is_connection_error : Result Bool → Bool
is_connection_error (err connection_error) = true
is_connection_error _ = false

-- What an attempt's answer makes of it, given what further attempts would give.
pub answered : Post → Sent → Result Bool → Sent
answered p rest a =
    if is_connection_error a
    then record { posts = p ∷ rest.posts; result = rest.result }
    else record { posts = p ∷ []; result = a }

-- `tenacity.retry` on ConnectionError: the last one of all attempts becomes a RetryError. The
-- requests are numbered from n.
pub retry : World → ℕ → ℕ → Result Post → Sent
unfolding answered
retry w zero n p = record { posts = []; result = err retry_error }
retry w (suc left) n (err e) = record { posts = []; result = err e }
retry w (suc left) n (ok p) = let rest = retry w left (suc n) (ok p) in answered p rest (w.post n p)

-- The exceptions that the hook is run for.
pub runs_hook : Result Bool → Bool
runs_hook (err connection_error) = true
runs_hook (err timeout) = true
runs_hook (err failover_exception) = true
runs_hook _ = false

abbrev pub count : List Post → ℕ
count [] = 0
count (_ ∷ ps) = suc (count ps)

-- `RunHookOnException`: what follows the hook. The second run is not guarded.
pub after_hook :
    World
    → (SyncManager → Result Post)
    → SyncManager
    → Sent
    → Result SyncManager
    → SyncManager × Sent
after_hook w body s first (err e) = (s, record { posts = first.posts; result = err e })
after_hook w body s first (ok s') =
    let second = retry w 15 (count first.posts) (body s') in
    (s', record { posts = first.posts ++ second.posts; result = second.result })

-- `RunHookOnException(hook=force_failover)` around the retries.
pub with_failover : Conf → World → SyncManager → (SyncManager → Result Post) → SyncManager × Sent
unfolding after_hook
with_failover conf w s body =
    let first = retry w 15 0 (body s) in
    if runs_hook first.result then after_hook w body s first (force_failover conf s) else (s, first)

pub tenant_update : Conf → World → SyncManager → Update → SyncManager × Sent
unfolding with_failover
tenant_update conf w s u = with_failover conf w s (λ s'. update_post conf w s' u)

pub tenant_delete : Conf → World → SyncManager → String → Option String → SyncManager × Sent
unfolding with_failover
tenant_delete conf w s network_id device =
    with_failover conf w s (λ s'. delete_post conf s' network_id device)
