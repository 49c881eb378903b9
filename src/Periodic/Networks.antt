-- ===== src/Periodic/Networks.antt =====
-- Which networks the reconciliation loop queues.
use mathlib.Core.Path.{subst}
use octavia_f5_provider_driv.Base.{
  Bool, if◌then◌else◌, some, not, ◌&&◌, String, false, ◌≡◌, refl, Option, none, List, [], ◌∷◌, ◌++◌,
  map, append-nil, ◌==◌, mem, any, Bool-cases, inl, inr, eq_iff,
}
use octavia_f5_provider_driv.Octavia.{LoadBalancer}
use octavia_f5_provider_driv.Runs.{Run, pure, call, ◌>>◌}
use octavia_f5_provider_driv.Handlers.{
  load_balancer, Call, put, set_amphora_ready, World, delete_load_balancer, ensure_host_set,
  ensure_amphora_exists,
}
use octavia_f5_provider_driv.Handlers.Retries.{
  Queues, Queues->>, call-Queues, ensure_amphora_exists-Queues, ensure_host_set-Queues,
}
use octavia_f5_provider_driv.Handlers.Missing.{found_network, delete_load_balancer-Queues}
use octavia_f5_provider_driv.Periodic.{
  Pending, networks, for_each, put_networks, scheduled, pending_sync, BootingDevice,
  full_sync_reappearing_devices,
}

-- Each network of the load balancers stands in the list, and once.
abbrev pub Unique : List String → Type 0
Unique [] = Unit
Unique (n ∷ ns) = (mem n ns ≡ false) × Unique ns

networks-Unique : (lbs : List LoadBalancer) → Unique (networks lbs)
networks-Unique [] = tt
networks-Unique (lb ∷ lbs) = elim (Bool-cases (mem lb.vip.network_id (networks lbs))) [
  | inl old ↦ rw old (networks-Unique lbs)
  | inr new ↦ rw new (new, networks-Unique lbs)
]

mem-networks :
    (n : String) (lbs : List LoadBalancer)
    → mem n (networks lbs) ≡ any lbs (λ (lb : LoadBalancer). lb.vip.network_id == n)
mem-networks n [] = refl
mem-networks n (lb ∷ lbs) = elim (Bool-cases (mem lb.vip.network_id (networks lbs))) [
  | inr new ↦ rw (new, mem-networks n lbs)
  | inl old ↦ elim (Bool-cases (lb.vip.network_id == n)) [
    | inr other ↦ rw (old, other, mem-networks n lbs)
    | inl same ↦ rw (old, same) (rw ((eq_iff lb.vip.network_id n).0 same) at old)
  ]
]

abbrev pub for_all : List String → List (String × Option String)
for_all ns = map (λ n. (n, none)) ns

-- The networks of the load balancers that are still in the database when they are to be deleted.
abbrev pub delete_puts : World → List LoadBalancer → List (String × Option String)
delete_puts w [] = []
delete_puts w (lb ∷ lbs) = found_network (w.find load_balancer 0 lb.id) ++ delete_puts w lbs

-- The load balancers that have something pending.
abbrev pub pending : World → Pending → List LoadBalancer
pending w p =
    (scheduled w p ++ p.pending_update) ++ (p.of_listeners ++ (p.of_pools ++ p.of_l7policies))

then_silent :
    {ms : List (String × Option String)} (r s : Run Call (Unit {0}))
    → Queues ms r
    → Queues [] s
    → Queues ms (r >> s)
then_silent {ms = ms} r s h k = subst (λ ns. Queues ns (r >> s)) (append-nil ms) (Queues->> r s h k)

module _ (w : World) (all_return : (c : Call) → w.raises c ≡ none) where
  deletes-Queues :
      (lbs : List LoadBalancer)
      → Queues (delete_puts w lbs) (for_each lbs (λ lb. delete_load_balancer w lb.id))
  deletes-Queues [] = record { returns = refl; queues = refl }
  deletes-Queues (lb ∷ lbs) =
      Queues->> (delete_load_balancer w lb.id) (for_each lbs (λ lb. delete_load_balancer w lb.id))
        (delete_load_balancer-Queues w lb.id all_return) (deletes-Queues lbs)

  silent-Queues :
      {A : Type 0} (f : A → Run Call (Unit {0})) (xs : List A)
      → ((x : A) → Queues [] (f x))
      → Queues [] (for_each xs f)
  silent-Queues f [] h = record { returns = refl; queues = refl }
  silent-Queues f (x ∷ xs) h = Queues->> (f x) (for_each xs f) (h x) (silent-Queues f xs h)

  put_networks-Queues :
      (device : Option String) (ns : List String)
      → Queues (map (λ n. (n, device)) ns) (put_networks w device ns)
  put_networks-Queues device [] = record { returns = refl; queues = refl }
  put_networks-Queues device (n ∷ ns) =
      Queues->> (call w.raises (put n device)) (put_networks w device ns)
        (call-Queues w all_return (put n device)) (put_networks-Queues device ns)

  pending_sync-Queues :
      (p : Pending)
      → Queues
          (delete_puts w p.pending_delete ++ for_all (networks (pending w p)))
          (pending_sync w p)
  unfolding pending_sync
  pending_sync-Queues p =
      let lbs = scheduled w p ++ p.pending_update in
      let deletes = for_each p.pending_delete (λ lb. delete_load_balancer w lb.id) in
      let hosts = for_each (scheduled w p) (λ lb. ensure_host_set w lb) in
      let entries = for_each lbs (λ lb. ensure_amphora_exists w lb.id) in
      let first =
        then_silent (deletes >> hosts) entries
          (then_silent deletes hosts (deletes-Queues p.pending_delete) (
            silent-Queues (λ lb. ensure_host_set w lb) (scheduled w p)
              (ensure_host_set-Queues w all_return)))
          (silent-Queues (λ lb. ensure_amphora_exists w lb.id) lbs
            (λ lb. ensure_amphora_exists-Queues w all_return lb.id)) in
      Queues->> (deletes >> hosts >> entries) (put_networks w none (networks (pending w p))) first
        (put_networks-Queues none (networks (pending w p)))

-- If no call raises, the reconciliation loop queues the network of each load balancer that is
-- PENDING_DELETE and still in the database, and then, each once and for all devices, exactly the
-- networks of the load balancers that are PENDING_CREATE and scheduled to this host, that are
-- PENDING_UPDATE, or that have a pending listener, pool or policy. It queues nothing for devices that
-- are back online, unlike its docstring.
pub pending_sync-networks :
    (w : World) (p : Pending)
    → ((c : Call) → w.raises c ≡ none)
    → Queues (delete_puts w p.pending_delete ++ for_all (networks (pending w p))) (pending_sync w p)
      × Unique (networks (pending w p))
      × ((n : String)
          → mem n (networks (pending w p))
            ≡ any (pending w p) (λ (lb : LoadBalancer). lb.vip.network_id == n))
pending_sync-networks w p all_return = (
  pending_sync-Queues w all_return p,
  networks-Unique (pending w p),
  λ n. mem-networks n (pending w p),
)

-- The networks that a device is to be given, unless it is left out in migration mode.
abbrev pub device_puts :
    Bool → List LoadBalancer → List BootingDevice → List (String × Option String)
device_puts migration lbs [] = []
device_puts migration lbs (d ∷ ds) =
    (if migration && not d.is_backup then [] else map (λ n. (n, some d.cached_zone)) (networks lbs))
    ++ device_puts migration lbs ds

-- If no call raises, each device that reappears is sent the networks of all load balancers of this
-- host, for that device alone. In migration mode only backup devices are.
pub full_sync_reappearing_devices-Queues :
    (w : World) (migration : Bool) (lbs : List LoadBalancer) (ds : List BootingDevice)
    → ((c : Call) → w.raises c ≡ none)
    → Queues (device_puts migration lbs ds) (full_sync_reappearing_devices w migration lbs ds)
unfolding full_sync_reappearing_devices
full_sync_reappearing_devices-Queues w migration lbs [] h = record { returns = refl; queues = refl }
full_sync_reappearing_devices-Queues w migration lbs (d ∷ ds) h =
    let rest = full_sync_reappearing_devices w migration lbs ds in
    let later = full_sync_reappearing_devices-Queues w migration lbs ds h in
    let ready = call w.raises (set_amphora_ready d.id) in
    let sync = put_networks w (some d.cached_zone) (networks lbs) in
    elim (Bool-cases (migration && not d.is_backup)) [
      | inl left_out ↦
          rw left_out (Queues->> (pure tt) rest (record { returns = refl; queues = refl }) later)
      | inr in_turn ↦ rw in_turn (
          Queues->> (sync >> ready) rest
            (then_silent sync ready (put_networks-Queues w h (some d.cached_zone) (networks lbs))
              (call-Queues w h (set_amphora_ready d.id)))
            later)
    ]
