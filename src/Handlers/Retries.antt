-- ===== src/Handlers/Retries.antt =====
-- How long a `create` handler waits for its entity.
use mathlib.Core.Path.{subst}
use octavia_f5_provider_driv.Base.{
  ℕ, zero, suc, ◌+◌, ◌<◌, String, ◌≡◌, refl, ◌∙◌, Option, none, some, List, [], ◌∷◌, ◌++◌, arith,
  ap, Exception, ok, no_result_found, retry_error, Bool-cases, inl, inr, ◌==◌,
}
use octavia_f5_provider_driv.Octavia.{LoadBalancer}
use octavia_f5_provider_driv.Runs.{Run, raise, call, ◌>>◌}
use octavia_f5_provider_driv.Text.{take_chars}
use octavia_f5_provider_driv.Handlers.{
  Entity, load_balancer, listener, pool, member, health_monitor, l7policy, l7rule, Call, put,
  create_amphora, update_amphora, set_server_group_id, set_amphora_ready, World, retry, read,
  plain_body, load_balancer_body, member_body, create_load_balancer, create_listener, create_pool,
  create_member, create_health_monitor, create_l7policy, create_l7rule, found_or_raise,
  queue_network, ensure_amphora_exists, ensure_entry, ensure_host_set, Amphora,
}

-- The `create` handler of each kind of entity, and what it does with what it found.
abbrev pub create : World → Entity → String → Run Call (Unit {0})
create w load_balancer = create_load_balancer w
create w listener = create_listener w
create w pool = create_pool w
create w member = create_member w
create w health_monitor = create_health_monitor w
create w l7policy = create_l7policy w
create w l7rule = create_l7rule w

abbrev pub body : World → Entity → Option LoadBalancer → Run Call (Unit {0})
body w load_balancer = load_balancer_body w
body w member = member_body w
body w _ = plain_body w

-- The number of reads.
abbrev pub attempts : Entity → ℕ
attempts health_monitor = 1
attempts _ = 15

retry-first :
    (f : Option LoadBalancer → Run Call (Unit {0})) (left n : ℕ) (find : ℕ → Option LoadBalancer)
    (lb : LoadBalancer)
    → find n ≡ some lb
    → retry f (suc left) find n ≡ f (some lb)
unfolding retry read
retry-first f left n find lb e = rw e

retry-next :
    (f : Option LoadBalancer → Run Call (Unit {0})) (left n : ℕ) (find : ℕ → Option LoadBalancer)
    → find n ≡ none
    → retry f (suc left) find n ≡ retry f left find (suc n)
unfolding retry read
retry-next f left n find e = rw e

retry-found :
    (f : Option LoadBalancer → Run Call (Unit {0})) (left k n : ℕ) (find : ℕ → Option LoadBalancer)
    (lb : LoadBalancer)
    → k < left
    → ((i : ℕ) → i < k → find (i + n) ≡ none)
    → find (k + n) ≡ some lb
    → retry f left find n ≡ f (some lb)
unfolding retry read
retry-found f zero k n find lb l h e = absurd (omega arith)
retry-found f (suc left) zero n find lb l h e =
    retry-first f left n find lb (subst (λ m. find m ≡ some lb) (omega arith) e)
retry-found f (suc left) (suc k) n find lb l h e =
    retry-next f left n find (subst (λ m. find m ≡ none) (omega arith) (h 0 (omega arith)))
    ∙ retry-found f left k (suc n) find lb (omega arith)
        (λ i b. subst (λ m. find m ≡ none) (omega arith) (h (suc i) (omega arith)))
        (subst (λ m. find m ≡ some lb) (omega arith) e)

retry-missing :
    (f : Option LoadBalancer → Run Call (Unit {0})) (left n : ℕ) (find : ℕ → Option LoadBalancer)
    → ((i : ℕ) → find i ≡ none)
    → retry f left find n ≡ raise retry_error
unfolding retry read
retry-missing f zero n find h = refl
retry-missing f (suc left) n find h = rw (h n, retry-missing f left (suc n) find h)

waits :
    {k : ℕ} {lb : LoadBalancer} (f : Option LoadBalancer → Run Call (Unit {0}))
    (find : ℕ → Option LoadBalancer)
    → k < 15
    → ((i : ℕ) → i < k → find i ≡ none)
    → find k ≡ some lb
    → retry f 15 find 0 ≡ f (some lb)
waits {k = k} {lb = lb} f find l h e =
    retry-found f 15 k 0 find lb l (λ i b. subst (λ m. find m ≡ none) (omega arith) (h i b))
      (subst (λ m. find m ≡ some lb) (omega arith) e)

create-found :
    (w : World) (e : Entity) (id : String) (k : ℕ) (lb : LoadBalancer)
    → k < attempts e
    → ((i : ℕ) → i < k → w.find e i id ≡ none)
    → w.find e k id ≡ some lb
    → create w e id ≡ body w e (some lb)
unfolding create_load_balancer create_listener create_pool create_member create_health_monitor
    create_l7policy create_l7rule
create-found w load_balancer id k lb l h e =
    waits (load_balancer_body w) (λ n. w.find load_balancer n id) l h e
create-found w listener id k lb l h e = waits (plain_body w) (λ n. w.find listener n id) l h e
create-found w pool id k lb l h e = waits (plain_body w) (λ n. w.find pool n id) l h e
create-found w member id k lb l h e = waits (member_body w) (λ n. w.find member n id) l h e
create-found w health_monitor id zero lb l h e = rw e
create-found w health_monitor id (suc k) lb l h e = absurd (omega arith)
create-found w l7policy id k lb l h e = waits (plain_body w) (λ n. w.find l7policy n id) l h e
create-found w l7rule id k lb l h e = waits (plain_body w) (λ n. w.find l7rule n id) l h e

-- The networks that the calls of a run queue, and for which device.
abbrev pub puts : List Call → List (String × Option String)
puts [] = []
puts (put network_id device ∷ cs) = (network_id, device) ∷ puts cs
puts (_ ∷ cs) = puts cs

puts-append : (cs ds : List Call) → puts (cs ++ ds) ≡ puts cs ++ puts ds
puts-append [] ds = refl
puts-append (put network_id device ∷ cs) ds =
    ap (λ ps. (network_id, device) ∷ ps) (puts-append cs ds)
puts-append (create_amphora _ _ ∷ cs) ds = puts-append cs ds
puts-append (update_amphora _ _ ∷ cs) ds = puts-append cs ds
puts-append (set_server_group_id _ _ ∷ cs) ds = puts-append cs ds
puts-append (set_amphora_ready _ ∷ cs) ds = puts-append cs ds

-- The run returns and queues these networks.
pub record Queues (networks : List (String × Option String)) (r : Run Call (Unit {0}))
    : Type 0 where
  pub returns : r.result ≡ ok tt
  pub queues : puts r.calls ≡ networks

pub Queues->> :
    {ms ns : List (String × Option String)} (r s : Run Call (Unit {0}))
    → Queues ms r
    → Queues ns s
    → Queues (ms ++ ns) (r >> s)
Queues->> r s h k = record {
  returns = rw (h.returns, k.returns);
  queues = rw h.returns (rw (puts-append r.calls s.calls, h.queues, k.queues));
}

module _ (w : World) (all_return : (c : Call) → w.raises c ≡ none) where
  pub call-Queues : (c : Call) → Queues (puts (c ∷ [])) (call w.raises c)
  call-Queues c = record { returns = rw (all_return c); queues = refl }

  ensure_entry-Queues : (id : String) (o : Option Amphora) → Queues [] (ensure_entry w id o)
  unfolding ensure_entry
  ensure_entry-Queues id none = call-Queues (create_amphora id w.host)
  ensure_entry-Queues id (some a) = elim (Bool-cases (a.compute_flavor == w.host)) [
    | inl same ↦ rw same (record { returns = refl; queues = refl })
    | inr other ↦ rw other (call-Queues (update_amphora a.id w.host))
  ]

  pub ensure_amphora_exists-Queues : (id : String) → Queues [] (ensure_amphora_exists w id)
  unfolding ensure_amphora_exists
  ensure_amphora_exists-Queues id = ensure_entry-Queues id (w.amphora id)

  pub ensure_host_set-Queues : (lb : LoadBalancer) → Queues [] (ensure_host_set w lb)
  unfolding ensure_host_set
  ensure_host_set-Queues lb = elim (Bool-cases (take_chars 36 w.host == lb.server_group_id)) [
    | inl same ↦ rw same (record { returns = refl; queues = refl })
    | inr other ↦ rw other (call-Queues (set_server_group_id lb.id (take_chars 36 w.host)))
  ]

  body-Queues :
      (e : Entity) (lb : LoadBalancer)
      → Queues ((lb.vip.network_id, none) ∷ []) (body w e (some lb))
  unfolding plain_body load_balancer_body member_body
  body-Queues load_balancer lb =
      Queues->> (ensure_amphora_exists w lb.id >> ensure_host_set w lb) (queue_network w lb)
        (Queues->> (ensure_amphora_exists w lb.id) (ensure_host_set w lb)
          (ensure_amphora_exists-Queues lb.id) (ensure_host_set-Queues lb))
        (call-Queues (put lb.vip.network_id none))
  body-Queues member lb =
      Queues->> (ensure_amphora_exists w lb.id) (queue_network w lb)
        (ensure_amphora_exists-Queues lb.id) (call-Queues (put lb.vip.network_id none))
  body-Queues listener lb = call-Queues (put lb.vip.network_id none)
  body-Queues pool lb = call-Queues (put lb.vip.network_id none)
  body-Queues health_monitor lb = call-Queues (put lb.vip.network_id none)
  body-Queues l7policy lb = call-Queues (put lb.vip.network_id none)
  body-Queues l7rule lb = call-Queues (put lb.vip.network_id none)

-- A `create` handler whose entity shows up in the database within its reads, 15 of them and one
-- alone for a health monitor, returns and queues the entity's network, once and for all devices, if
-- no call raises.
pub create-Queues :
    (w : World) (e : Entity) (id : String) (k : ℕ) (lb : LoadBalancer)
    → ((c : Call) → w.raises c ≡ none)
    → k < attempts e
    → ((i : ℕ) → i < k → w.find e i id ≡ none)
    → w.find e k id ≡ some lb
    → Queues ((lb.vip.network_id, none) ∷ []) (create w e id)
create-Queues w e id k lb all_return l h found =
    rw (create-found w e id k lb l h found) (body-Queues w all_return e lb)

abbrev pub missing_error : Entity → Exception
missing_error health_monitor = no_result_found
missing_error _ = retry_error

-- A `create` handler whose entity never shows up does nothing, and raises RetryError after the 15th
-- read; for a health monitor it raises NoResultFound after the first one.
create-missing :
    (w : World) (e : Entity) (id : String)
    → ((i : ℕ) → w.find e i id ≡ none)
    → create w e id ≡ raise (missing_error e)
unfolding create_load_balancer create_listener create_pool create_member create_health_monitor
    create_l7policy create_l7rule plain_body found_or_raise
create-missing w load_balancer id h = retry-missing (load_balancer_body w) 15 0 _ h
create-missing w listener id h = retry-missing (plain_body w) 15 0 _ h
create-missing w pool id h = retry-missing (plain_body w) 15 0 _ h
create-missing w member id h = retry-missing (member_body w) 15 0 _ h
create-missing w health_monitor id h = rw (h 0)
create-missing w l7policy id h = retry-missing (plain_body w) 15 0 _ h
create-missing w l7rule id h = retry-missing (plain_body w) 15 0 _ h
