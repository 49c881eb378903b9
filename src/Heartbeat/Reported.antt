-- ===== src/Heartbeat/Reported.antt =====
-- What a heartbeat reports, by the ids that the objects on the device were named with.
use octavia_f5_provider_driv.Base.{
  String, false, ◌&&◌, ◌≡◌, refl, ap, ◌∙◌, Option, none, some, List, [], ◌∷◌, ◌==◌, map, Dict,
  lookup, Result, ok, if◌then◌else◌,
}
use octavia_f5_provider_driv.Text.{has_char}
use octavia_f5_provider_driv.Names.{listener_name, pool_name}
use octavia_f5_provider_driv.HealthMessage.{PoolReport}
use octavia_f5_provider_driv.Heartbeat.{
  VirtualStats, PoolStats, ListenerStats, Message, stats_of, pool_report, listener_from_path,
  pool_from_path, loadbalancer_from_path, put_listener, put_pool, add_virtuals, add_pools,
  heartbeat,
}
use octavia_f5_provider_driv.Heartbeat.Paths.{
  IsId, object_path, loadbalancer_from_path-object_path, listener_from_path-object_path,
  pool_from_path-object_path, listener_name-has_char, pool_name-has_char,
}
use octavia_f5_provider_driv.Heartbeat.Messages.{
  listeners_in, pools_in, is_lb, last_virtual, last_pool, heartbeat-messages,
}

-- The ids that an object was named with: the last is that of a listener or a pool.
pub record Place : Type 0 where
  pub network_id : String
  pub loadbalancer_id : String
  pub id : String

-- The objects stand in the partition of their network and the application of their load balancer,
-- and have the names that their ids get.
abbrev pub AreAt : {A : Type 0} → (A → String) → (String → String) → List (Place × A) → Type 0
AreAt path name [] = Unit
AreAt path name ((p, a) ∷ rest) =
    (has_char p.network_id "/" ≡ false)
    × IsId p.loadbalancer_id
    × IsId p.id
    × (path a ≡ object_path p.network_id p.loadbalancer_id (name p.id))
    × AreAt path name rest

-- What is told of the last object with these ids.
abbrev pub last_at :
    {A B : Type 0} → (A → B) → String → String → List (Place × A) → Option B → Option B
last_at f lb id [] old = old
last_at f lb id ((p, a) ∷ rest) old =
    last_at f lb id rest (if p.loadbalancer_id == lb && p.id == id then some (f a) else old)

abbrev pub objects : {A : Type 0} → List (Place × A) → List A
objects = map (λ o. o.1)

abbrev Added : Result (Dict Message) → Type 0
Added r = (ms : Dict Message) × (r ≡ ok ms)

-- The ids that are read from the path of such an object are those that it was named with.
reads :
    (p : Place) (path name : String)
    → has_char p.network_id "/" ≡ false
    → IsId p.loadbalancer_id
    → has_char name "/" ≡ false
    → path ≡ object_path p.network_id p.loadbalancer_id name
    → loadbalancer_from_path path ≡ some p.loadbalancer_id
reads p path name n lb h e =
    ap loadbalancer_from_path e
    ∙ loadbalancer_from_path-object_path p.network_id p.loadbalancer_id name n lb h

reads_listener :
    (p : Place) (path : String)
    → has_char p.network_id "/" ≡ false
    → IsId p.loadbalancer_id
    → IsId p.id
    → path ≡ object_path p.network_id p.loadbalancer_id (listener_name p.id)
    → listener_from_path path ≡ p.id
reads_listener p path n lb i e =
    ap listener_from_path e
    ∙ listener_from_path-object_path p.network_id p.loadbalancer_id p.id n lb i

reads_pool :
    (p : Place) (path : String)
    → has_char p.network_id "/" ≡ false
    → IsId p.loadbalancer_id
    → IsId p.id
    → path ≡ object_path p.network_id p.loadbalancer_id (pool_name p.id)
    → pool_from_path path ≡ p.id
reads_pool p path n lb i e =
    ap pool_from_path e ∙ pool_from_path-object_path p.network_id p.loadbalancer_id p.id n lb i

add_virtuals-Added :
    (vs : List (Place × VirtualStats)) (ms : Dict Message)
    → AreAt (λ v. v.path) listener_name vs
    → Added (add_virtuals (objects vs) ms)
unfolding add_virtuals
add_virtuals-Added [] ms h = (ms, refl)
add_virtuals-Added ((p, v) ∷ vs) ms (n, lb, i, e, h) =
    rw (reads p v.path (listener_name p.id) n lb (listener_name-has_char p.id i.0) e) (
      add_virtuals-Added vs
        (put_listener p.loadbalancer_id (listener_from_path v.path) (stats_of v) ms) h)

add_pools-Added :
    (ps : List (Place × PoolStats)) (ms : Dict Message)
    → AreAt (λ q. q.path) pool_name ps
    → Added (add_pools (objects ps) ms)
unfolding add_pools
add_pools-Added [] ms h = (ms, refl)
add_pools-Added ((p, q) ∷ ps) ms (n, lb, i, e, h) =
    rw (reads p q.path (pool_name p.id) n lb (pool_name-has_char p.id i.0) e)
      (add_pools-Added ps (put_pool p.loadbalancer_id (pool_from_path q.path) (pool_report q) ms) h)

last_virtual-last_at :
    (lb l : String) (vs : List (Place × VirtualStats)) (old : Option ListenerStats)
    → AreAt (λ v. v.path) listener_name vs
    → last_virtual lb l (objects vs) old ≡ last_at stats_of lb l vs old
unfolding last_virtual
last_virtual-last_at lb l [] old h = refl
last_virtual-last_at lb l ((p, v) ∷ vs) old (n, b, i, e, h) =
    ap
      (λ (o : Option String).
        last_virtual lb l (objects vs)
          (if is_lb lb o && listener_from_path v.path == l then some (stats_of v) else old))
      (reads p v.path (listener_name p.id) n b (listener_name-has_char p.id i.0) e)
    ∙ ap
        (λ (k : String).
          last_virtual lb l (objects vs)
            (if p.loadbalancer_id == lb && k == l then some (stats_of v) else old))
        (reads_listener p v.path n b i e)
    ∙ last_virtual-last_at lb l vs _ h

last_pool-last_at :
    (lb l : String) (ps : List (Place × PoolStats)) (old : Option PoolReport)
    → AreAt (λ q. q.path) pool_name ps
    → last_pool lb l (objects ps) old ≡ last_at pool_report lb l ps old
unfolding last_pool
last_pool-last_at lb l [] old h = refl
last_pool-last_at lb l ((p, q) ∷ ps) old (n, b, i, e, h) =
    ap
      (λ (o : Option String).
        last_pool lb l (objects ps)
          (if is_lb lb o && pool_from_path q.path == l then some (pool_report q) else old))
      (reads p q.path (pool_name p.id) n b (pool_name-has_char p.id i.0) e)
    ∙ ap
        (λ (k : String).
          last_pool lb l (objects ps)
            (if p.loadbalancer_id == lb && k == l then some (pool_report q) else old))
        (reads_pool p q.path n b i e)
    ∙ last_pool-last_at lb l ps _ h

heartbeat-Added :
    (vs : List (Place × VirtualStats)) (ps : List (Place × PoolStats))
    → AreAt (λ v. v.path) listener_name vs
    → AreAt (λ q. q.path) pool_name ps
    → Added (heartbeat (some (objects vs)) (objects ps)).1
unfolding heartbeat
heartbeat-Added vs ps hv hp =
    let (ms, e) = add_virtuals-Added vs [] hv in rw e (add_pools-Added ps ms hp)

-- A heartbeat in which every virtual server and every pool stands in the partition of its network
-- and in the application of its load balancer, under the name that its listener's or its own id gets,
-- does not raise. For each load balancer id and listener id its messages hold what the last of the
-- virtual servers named with these ids reports, for each load balancer id and pool id what the last
-- such pool reports, and nothing for other ids. The ids of load balancers, listeners and pools have
-- no slash, no underscore, no l and no p, as no UUID has, and those of networks have no slash.
pub heartbeat-reported :
    (vs : List (Place × VirtualStats)) (ps : List (Place × PoolStats))
    → AreAt (λ v. v.path) listener_name vs
    → AreAt (λ q. q.path) pool_name ps
    → (ms : Dict Message) × ((heartbeat (some (objects vs)) (objects ps)).1 ≡ ok ms)
      × ((lb l : String) → lookup l (listeners_in (lookup lb ms)) ≡ last_at stats_of lb l vs none)
      × ((lb p : String) → lookup p (pools_in (lookup lb ms)) ≡ last_at pool_report lb p ps none)
heartbeat-reported vs ps hv hp =
    let (ms, e) = heartbeat-Added vs ps hv hp in
    let held = heartbeat-messages (objects vs) (objects ps) ms e in
    (
      ms,
      e,
      λ lb l. (held lb).0 l ∙ last_virtual-last_at lb l vs none hv,
      λ lb p. (held lb).1 p ∙ last_pool-last_at lb p ps none hp,
    )
