-- ===== src/Heartbeat/Messages.antt =====
-- What the messages hold.
use octavia_f5_provider_driv.Base.{
  String, Bool, false, ◌&&◌, ◌≡◌, refl, ◌∙◌, Option, none, some, List, [], ◌∷◌, ◌==◌, eq_iff, ap,
  Bool-cases, inl, inr, Dict, lookup, insert, lookup-insert, ok, and_then, Holds, Holds-and_then,
  Holds-returned, Holds-weaken, if◌then◌else◌,
}
use octavia_f5_provider_driv.HealthMessage.{PoolReport}
use octavia_f5_provider_driv.Heartbeat.{
  VirtualStats, PoolStats, ListenerStats, Message, listener_from_path, pool_from_path,
  loadbalancer_from_path, message_of, stats_of, put_listener, put_pool, add_virtuals, pool_report,
  add_pools, routed, heartbeat,
}

-- What the message of a load balancer holds for a listener, and for a pool.
abbrev pub listeners_in : Option Message → Dict ListenerStats
listeners_in none = []
listeners_in (some m) = m.listeners

abbrev pub pools_in : Option Message → Dict PoolReport
pools_in none = []
pools_in (some m) = m.pools

abbrev pub is_lb : String → Option String → Bool
is_lb lb none = false
is_lb lb (some id) = id == lb

-- The last virtual server of the load balancer and the listener, and the last such pool.
unfoldable pub last_virtual :
    String → String → List VirtualStats → Option ListenerStats → Option ListenerStats
last_virtual lb l [] old = old
last_virtual lb l (v ∷ vs) old = last_virtual lb l vs (
    if is_lb lb (loadbalancer_from_path v.path) && listener_from_path v.path == l
    then some (stats_of v)
    else old)

unfoldable pub last_pool : String → String → List PoolStats → Option PoolReport → Option PoolReport
last_pool lb p [] old = old
last_pool lb p (q ∷ qs) old = last_pool lb p qs (
    if is_lb lb (loadbalancer_from_path q.path) && pool_from_path q.path == p
    then some (pool_report q)
    else old)

abbrev listener_in : String → String → Dict Message → Option ListenerStats
listener_in lb l ms = lookup l (listeners_in (lookup lb ms))

abbrev pool_in : String → String → Dict Message → Option PoolReport
pool_in lb p ms = lookup p (pools_in (lookup lb ms))

message_of-listeners :
    (lb : String) (o : Option Message) → (message_of lb o).listeners ≡ listeners_in o
message_of-listeners lb none = refl
message_of-listeners lb (some m) = refl

message_of-pools : (lb : String) (o : Option Message) → (message_of lb o).pools ≡ pools_in o
message_of-pools lb none = refl
message_of-pools lb (some m) = refl

module _ (id lb : String) (ms : Dict Message) where
  listener_in-put_listener :
      (k l : String) (s : ListenerStats)
      → listener_in lb l (put_listener id k s ms)
        ≡ (if id == lb && k == l then some s else listener_in lb l ms)
  listener_in-put_listener k l s =
      let old = message_of id (lookup id ms) in
      let new = record old { listeners = insert k s old.listeners } in
      rw (lookup-insert id lb new ms) (elim (Bool-cases (id == lb)) [
        | inr ne ↦ rw ne refl
        | inl e ↦
            rw (e, lookup-insert k l s old.listeners, message_of-listeners id (lookup id ms))
              (ap (λ (x : String). if k == l then some s else lookup l (listeners_in (lookup x ms)))
                ((eq_iff id lb).0 e))
      ])

  listener_in-put_pool :
      (k l : String) (r : PoolReport) → listener_in lb l (put_pool id k r ms) ≡ listener_in lb l ms
  listener_in-put_pool k l r =
      let old = message_of id (lookup id ms) in
      rw (lookup-insert id lb (record old { pools = insert k r old.pools }) ms)
        (elim (Bool-cases (id == lb)) [
          | inr ne ↦ rw ne refl
          | inl e ↦
              rw (e, message_of-listeners id (lookup id ms))
                (ap (λ (x : String). lookup l (listeners_in (lookup x ms))) ((eq_iff id lb).0 e))
        ])

  pool_in-put_pool :
      (k p : String) (r : PoolReport)
      → pool_in lb p (put_pool id k r ms) ≡ (if id == lb && k == p then some r else pool_in lb p ms)
  pool_in-put_pool k p r =
      let old = message_of id (lookup id ms) in
      let new = record old { pools = insert k r old.pools } in
      rw (lookup-insert id lb new ms) (elim (Bool-cases (id == lb)) [
        | inr ne ↦ rw ne refl
        | inl e ↦
            rw (e, lookup-insert k p r old.pools, message_of-pools id (lookup id ms))
              (ap (λ (x : String). if k == p then some r else lookup p (pools_in (lookup x ms)))
                ((eq_iff id lb).0 e))
      ])

  pool_in-put_listener :
      (k p : String) (s : ListenerStats) → pool_in lb p (put_listener id k s ms) ≡ pool_in lb p ms
  pool_in-put_listener k p s =
      let old = message_of id (lookup id ms) in
      rw (lookup-insert id lb (record old { listeners = insert k s old.listeners }) ms)
        (elim (Bool-cases (id == lb)) [
          | inr ne ↦ rw ne refl
          | inl e ↦
              rw (e, message_of-pools id (lookup id ms))
                (ap (λ (x : String). lookup p (pools_in (lookup x ms))) ((eq_iff id lb).0 e))
        ])

-- What a loop adds to the messages for the load balancer.
abbrev Adds :
    String
    → (String → Option ListenerStats → Option ListenerStats)
    → (String → Option PoolReport → Option PoolReport)
    → Dict Message
    → Dict Message
    → Type 0
Adds lb f g ms ns =
    ((l : String) → listener_in lb l ns ≡ f l (listener_in lb l ms))
    × ((p : String) → pool_in lb p ns ≡ g p (pool_in lb p ms))

add_virtuals-Adds :
    (lb : String) (vs : List VirtualStats) (ms : Dict Message)
    → Holds (Adds lb (λ l. last_virtual lb l vs) (λ p o. o) ms) (add_virtuals vs ms)
unfolding add_virtuals last_virtual
add_virtuals-Adds lb [] ms = (λ l. refl, λ p. refl)
add_virtuals-Adds lb (v ∷ vs) ms = step (loadbalancer_from_path v.path) (add_virtuals-Adds lb vs)
  where
    k : String
    k = listener_from_path v.path

    step :
        (o : Option String)
        → ((ns : Dict Message)
            → Holds (Adds lb (λ l. last_virtual lb l vs) (λ p o. o) ns) (add_virtuals vs ns))
        → Holds
            (Adds lb
              (λ l old.
                last_virtual lb l vs (if is_lb lb o && k == l then some (stats_of v) else old))
              (λ p o. o)
              ms)
            (routed o (λ id. add_virtuals vs (put_listener id k (stats_of v) ms)))
    step none ih = tt
    step (some id) ih =
        Holds-weaken
          (Adds lb (λ l. last_virtual lb l vs) (λ p o. o) (put_listener id k (stats_of v) ms)) _
          (add_virtuals vs (put_listener id k (stats_of v) ms))
          (λ ns h. (
            λ l.
                h.0 l
                ∙ ap (λ o. last_virtual lb l vs o)
                    (listener_in-put_listener id lb ms k l (stats_of v)),
            λ p. h.1 p ∙ pool_in-put_listener id lb ms k p (stats_of v),
          ))
          (ih (put_listener id k (stats_of v) ms))

add_pools-Adds :
    (lb : String) (qs : List PoolStats) (ms : Dict Message)
    → Holds (Adds lb (λ l o. o) (λ p. last_pool lb p qs) ms) (add_pools qs ms)
unfolding add_pools last_pool
add_pools-Adds lb [] ms = (λ l. refl, λ p. refl)
add_pools-Adds lb (q ∷ qs) ms = step (loadbalancer_from_path q.path) (add_pools-Adds lb qs)
  where
    k : String
    k = pool_from_path q.path

    step :
        (o : Option String)
        → ((ns : Dict Message)
            → Holds (Adds lb (λ l o. o) (λ p. last_pool lb p qs) ns) (add_pools qs ns))
        → Holds
            (Adds lb
              (λ l o. o)
              (λ p old.
                last_pool lb p qs (if is_lb lb o && k == p then some (pool_report q) else old))
              ms)
            (routed o (λ id. add_pools qs (put_pool id k (pool_report q) ms)))
    step none ih = tt
    step (some id) ih =
        Holds-weaken
          (Adds lb (λ l o. o) (λ p. last_pool lb p qs) (put_pool id k (pool_report q) ms)) _
          (add_pools qs (put_pool id k (pool_report q) ms))
          (λ ns h. (
            λ l. h.0 l ∙ listener_in-put_pool id lb ms k l (pool_report q),
            λ p.
                h.1 p
                ∙ ap (λ o. last_pool lb p qs o) (pool_in-put_pool id lb ms k p (pool_report q)),
          ))
          (ih (put_pool id k (pool_report q) ms))

-- The messages of a heartbeat that does not raise, by the ids that are read from the paths.
pub heartbeat-messages :
    (virtuals : List VirtualStats) (pools : List PoolStats) (ms : Dict Message)
    → (heartbeat (some virtuals) pools).1 ≡ ok ms
    → (lb : String)
    → ((l : String) → lookup l (listeners_in (lookup lb ms)) ≡ last_virtual lb l virtuals none)
      × ((p : String) → lookup p (pools_in (lookup lb ms)) ≡ last_pool lb p pools none)
unfolding heartbeat
heartbeat-messages virtuals pools ms e lb =
    Holds-returned
      (λ ns. Adds lb (λ l. last_virtual lb l virtuals) (λ p. last_pool lb p pools) [] ns)
      (and_then (add_virtuals virtuals []) (λ ns. add_pools pools ns)) ms
      (Holds-and_then _ _ (add_virtuals virtuals []) _ (add_virtuals-Adds lb virtuals []) (λ ns h.
        Holds-weaken _ _ (add_pools pools ns)
          (λ os k. (λ l. k.0 l ∙ h.0 l, λ p. k.1 p ∙ ap (λ o. last_pool lb p pools o) (h.1 p)))
          (add_pools-Adds lb pools ns)))
      e
