-- ===== src/Pool/Members.antt =====
-- Which members a pool has on the device, and that the monitors it names are declared beside it.
use octavia_f5_provider_driv.Base.{
  String, Bool, true, not, ◌&&◌, ◌||◌, ◌≡◌, refl, Option, none, some, List, [], ◌∷◌, ◌++◌, map,
  arith, ◌==◌, mem, any, keep, All, All-weaken, any-append, Bool-cases, inl, inr, eq_refl,
}
use octavia_f5_provider_driv.Octavia.{HealthMonitor, Member, Pool, is_pending_delete}
use octavia_f5_provider_driv.Names.{monitor_name}
use octavia_f5_provider_driv.Monitor.{Conf}
use octavia_f5_provider_driv.Pool.{
  As3Member, Entity, Gathered, get_member, has_custom_monitor, is_some, custom_monitor,
  gather_member, gather, enable_priority_group, pool_monitor, pool_monitor_names, as3_pool,
  get_pool,
}

-- The address of the member is not its own: it is that of a VIP or SelfIP, or none.
abbrev pub is_taken : List String → Member → Bool
is_taken ips m = mem m.ip_address ips || m.ip_address == "0.0.0.0"

abbrev pub is_live : Member → Bool
is_live m = not (is_pending_delete m.provisioning_status)

module _ (conf : Conf) (ips : List String) (hm : Option HealthMonitor) (priority : Bool) where
  accepted-gather :
      (ms : List Member)
      → (gather conf ips hm priority ms).accepted
        ≡ map
            (λ m. get_member m priority (is_some hm))
            (keep (λ m. is_live m && not (is_taken ips m)) ms)
  unfolding gather gather_member
  accepted-gather [] = refl
  accepted-gather (m ∷ ms) = ground (arith, accepted-gather ms)

  errors-gather :
      (ms : List Member)
      → (gather conf ips hm priority ms).errors ≡ keep (λ m. is_live m && is_taken ips m) ms
  unfolding gather gather_member
  errors-gather [] = refl
  errors-gather (m ∷ ms) = ground (arith, errors-gather ms)

-- The pool on the device has, in order, exactly the members that are not PENDING_DELETE and whose
-- address is neither 0.0.0.0 nor among the addresses to skip. Exactly the others that are not
-- PENDING_DELETE are marked as failed.
pub get_pool-members :
    (conf : Conf) (p : Pool) (ips : List String)
    → ((as3_pool conf p ips).members
        ≡ map
            (λ m. get_member m (enable_priority_group p) (is_some p.health_monitor))
            (keep (λ m. is_live m && not (is_taken ips m)) p.members))
      × ((get_pool conf p ips).1 ≡ keep (λ m. is_live m && is_taken ips m) p.members)
unfolding as3_pool get_pool
get_pool-members conf p ips =
    let b = enable_priority_group p in
    (
      accepted-gather conf ips p.health_monitor b p.members,
      errors-gather conf ips p.health_monitor b p.members,
    )

-- A name is declared among the entities.
abbrev pub Declares : List (String × Entity) → String → Type 0
Declares es n = any es (λ e. e.0 == n) ≡ true

Declares-append_left :
    (es fs : List (String × Entity)) (n : String) → Declares es n → Declares (es ++ fs) n
Declares-append_left es fs n h = rw (any-append es fs (λ e. e.0 == n), h)

Declares-append_right :
    (es fs : List (String × Entity)) (n : String) → Declares fs n → Declares (es ++ fs) n
Declares-append_right es fs n h = rw (any-append es fs (λ e. e.0 == n), h) (ground arith)

abbrev pub AllDeclared : List (String × Entity) → List String → Type 0
AllDeclared es = All (Declares es)

own_monitor-AllDeclared :
    (conf : Conf) (hm : Option HealthMonitor) (priority : Bool) (m : Member)
    → AllDeclared (custom_monitor conf hm m) (get_member m priority (is_some hm)).monitors
unfolding custom_monitor get_member
own_monitor-AllDeclared conf none priority m = tt
own_monitor-AllDeclared conf (some hm) priority m = elim (Bool-cases (has_custom_monitor m)) [
  | inl has ↦ rw has (rw (eq_refl (monitor_name m.id)) refl, tt)
  | inr has ↦ rw has tt
]

module _ (conf : Conf) (ips : List String) (hm : Option HealthMonitor) (priority : Bool) where
  abbrev IsDeclared : Gathered → Type 0
  IsDeclared g = All (λ (a : As3Member). AllDeclared g.entities a.monitors) g.accepted

  gather_member-IsDeclared :
      (m : Member) (g : Gathered)
      → IsDeclared g
      → IsDeclared (gather_member conf ips hm priority m g)
  unfolding gather_member
  gather_member-IsDeclared m g h =
      let own = own_monitor-AllDeclared conf hm priority m in
      let es = custom_monitor conf hm m in
      elim (Bool-cases (is_pending_delete m.provisioning_status)) [
        | inl a ↦ rw a h
        | inr a ↦ elim (Bool-cases (mem m.ip_address ips)) [
          | inl b ↦ rw (a, b) h
          | inr b ↦ elim (Bool-cases (m.ip_address == "0.0.0.0")) [
            | inl c ↦ rw (a, b, c) h
            | inr c ↦
                rw (a, b, c)
                  (
                    All-weaken (Declares es) (Declares (es ++ g.entities))
                        (get_member m priority (is_some hm)).monitors
                        (Declares-append_left es g.entities) own,
                    All-weaken (λ (a : As3Member). AllDeclared g.entities a.monitors)
                        (λ (a : As3Member). AllDeclared (es ++ g.entities) a.monitors) g.accepted
                        (λ a.
                          All-weaken (Declares g.entities) (Declares (es ++ g.entities)) a.monitors
                            (Declares-append_right es g.entities))
                        h,
                  )
          ]
        ]
      ]

  gather-IsDeclared : (ms : List Member) → IsDeclared (gather conf ips hm priority ms)
  unfolding gather
  gather-IsDeclared [] = tt
  gather-IsDeclared (m ∷ ms) =
      gather_member-IsDeclared m (gather conf ips hm priority ms) (gather-IsDeclared ms)

pool_monitor-AllDeclared :
    (conf : Conf) (hm : Option HealthMonitor)
    → AllDeclared (pool_monitor conf hm) (pool_monitor_names hm)
unfolding pool_monitor pool_monitor_names
pool_monitor-AllDeclared conf none = tt
pool_monitor-AllDeclared conf (some hm) =
    elim (Bool-cases (is_pending_delete hm.provisioning_status)) [
      | inl going ↦ rw going tt
      | inr stays ↦ rw stays (rw (eq_refl (monitor_name hm.id)) refl, tt)
    ]

-- Every monitor that a member of the pool, or the pool itself, refers to is declared among the
-- entities of the pool.
pub get_pool-AllDeclared :
    (conf : Conf) (p : Pool) (ips : List String)
    → All
        (λ (a : As3Member). AllDeclared (get_pool conf p ips).0 a.monitors)
        (as3_pool conf p ips).members
      × AllDeclared (get_pool conf p ips).0 (as3_pool conf p ips).monitors
unfolding get_pool as3_pool
get_pool-AllDeclared conf p ips =
    let hm = p.health_monitor in
    let g = gather conf ips hm (enable_priority_group p) p.members in
    (
      All-weaken _ _ g.accepted (λ a. All-weaken _ _ a.monitors (Declares-append_left g.entities _))
          (gather-IsDeclared conf ips hm (enable_priority_group p) p.members),
      All-weaken _ _ (pool_monitor_names hm)
          (λ n h. Declares-append_right g.entities _ n (Declares-append_left _ _ n h))
          (pool_monitor-AllDeclared conf hm),
    )
