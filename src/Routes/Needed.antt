-- ===== src/Routes/Needed.antt =====
-- Which subnet routes are made and deleted.
use octavia_f5_provider_driv.Base.{
  String, Bool, true, false, not, ◌&&◌, ◌||◌, ◌≡◌, refl, ◌∙◌, sym, ap, Option, none, some, List, [],
  ◌∷◌, ◌==◌, map, mem, any, keep, arith, eq_iff, Bool-cases, inl, inr, Dict, ok,
}
use octavia_f5_provider_driv.Text.{concat}
use octavia_f5_provider_driv.Runs.{Run}
use octavia_f5_provider_driv.DeviceRest.{
  Json, Request, post, delete, Device, name_in, Network, SelfIp,
}
use octavia_f5_provider_driv.Routes.{
  subnets_that_need_routes, route_subnet, remove_one, still_needed, subnet_route, post_routes,
  skips, is_unneeded, is_obsolete, ensure_subnet_routes, delete_routes, cleanup_subnet_routes,
}

abbrev pub is_distinct : List String → Bool
is_distinct [] = true
is_distinct (s ∷ r) = not (mem s r) && is_distinct r

abbrev pub is_subnet : String → Option String → Bool
is_subnet c none = false
is_subnet c (some s) = s == c

-- One of the routes is that of the subnet.
abbrev pub has_route : String → List (Option String) → Bool
has_route c rs = any rs (is_subnet c)

mem-remove_one :
    (c s : String) (needed : List String)
    → is_distinct needed ≡ true
    → mem c (remove_one s needed) ≡ (mem c needed && not (s == c))
unfolding remove_one
mem-remove_one c s [] d = refl
mem-remove_one c s (t ∷ r) d = elim (Bool-cases (t == s)) [
  | inl e ↦ rw e (head_removed c s t r ((eq_iff t s).0 e) (ground arith))
  | inr ne ↦
      rw (ne, mem-remove_one c s r (ground arith))
        (ground (arith, eq_iff t c, eq_iff s c, eq_iff t s))
]
  where
    head_removed :
        (c s t : String) (r : List String)
        → t ≡ s
        → mem t r ≡ false
        → mem c r ≡ ((t == c || mem c r) && not (s == c))
    head_removed c s t r e absent = rw (← e) (elim (Bool-cases (t == c)) [
      | inl same ↦ rw (same, ap (λ (x : String). mem x r) (sym ((eq_iff t c).0 same)) ∙ absent) refl
      | inr other ↦ rw other (ground arith)
    ])

remove_one-is_distinct :
    (s : String) (needed : List String)
    → is_distinct needed ≡ true
    → is_distinct (remove_one s needed) ≡ true
unfolding remove_one
remove_one-is_distinct s [] d = refl
remove_one-is_distinct s (t ∷ r) d = elim (Bool-cases (t == s)) [
  | inl e ↦ rw e (ground arith)
  | inr ne ↦
      rw (ne, mem-remove_one t s r (ground arith), remove_one-is_distinct s r (ground arith))
        (ground arith)
]

mem-still_needed :
    (c : String) (rs : List (Option String)) (needed : List String)
    → is_distinct needed ≡ true
    → mem c (still_needed rs needed) ≡ (mem c needed && not (has_route c rs))
unfolding still_needed
mem-still_needed c [] needed d = ground arith
mem-still_needed c (none ∷ rs) needed d = mem-still_needed c rs needed d
mem-still_needed c (some s ∷ rs) needed d = elim (Bool-cases (mem s needed)) [
  | inl there ↦ rw there (
      mem-still_needed c rs (remove_one s needed) (remove_one-is_distinct s needed d)
      ∙ rw (mem-remove_one c s needed d) (ground arith))
  | inr absent ↦ rw absent (mem-still_needed c rs needed d ∙ not_there c s rs needed absent)
]
  where
    not_there :
        (c s : String) (rs : List (Option String)) (needed : List String)
        → mem s needed ≡ false
        → (mem c needed && not (has_route c rs)) ≡ (mem c needed && not (s == c || has_route c rs))
    not_there c s rs needed absent = elim (Bool-cases (s == c)) [
      | inl same ↦
          rw (same, ap (λ (x : String). mem x needed) (sym ((eq_iff s c).0 same)) ∙ absent) refl
      | inr other ↦ rw other refl
    ]

-- Every request of the device succeeds.
abbrev pub Succeeds : Device → Type 0
Succeeds d = (r : Request) → d.fails 0 r ≡ false

abbrev pub post_route : Network → (String → String × String) → String → Request
post_route n cidr s = post "/mgmt/tm/net/route" (subnet_route n s (cidr s))

abbrev pub delete_route : Dict Json → Request
delete_route o = delete (concat "/mgmt/tm/net/route/~Common~" (name_in o))

abbrev pub made : List Request → Run Request (Unit {0})
made rs = record { calls = rs; result = ok tt }

post_routes-eq :
    (d : Device) (n : Network) (cidr : String → String × String)
    → Succeeds d
    → (ss : List String) → post_routes d n cidr ss ≡ made (map (post_route n cidr) ss)
unfolding post_routes
post_routes-eq d n cidr h [] = refl
post_routes-eq d n cidr h (s ∷ ss) =
    rw (h (post "/mgmt/tm/net/route" (subnet_route n s (cidr s))), post_routes-eq d n cidr h ss)
      refl

delete_routes-eq :
    (d : Device) (n : Network) (needed : List String)
    → Succeeds d
    → (os : List (Dict Json))
    → delete_routes d n needed os ≡ made (map delete_route (keep (is_obsolete n needed) os))
unfolding delete_routes
delete_routes-eq d n needed h [] = refl
delete_routes-eq d n needed h (o ∷ os) = elim (Bool-cases (is_obsolete n needed o)) [
  | inl gone ↦ rw (gone, h (delete_route o), delete_routes-eq d n needed h os) refl
  | inr kept ↦ rw (kept, delete_routes-eq d n needed h os) refl
]

has_route-kept :
    (c : String) (n : Network) (needed : List String) (os : List (Dict Json))
    → has_route c (map (route_subnet n) (keep (λ o. not (is_obsolete n needed o)) os))
      ≡ (has_route c (map (route_subnet n) os) && mem c needed)
has_route-kept c n needed [] = refl
has_route-kept c n needed (o ∷ os) = elim (Bool-cases (is_obsolete n needed o)) [
  | inl gone ↦
      rw (gone, has_route-kept c n needed os)
        (unneeded (route_subnet n o) (has_route c (map (route_subnet n) os)) gone)
  | inr kept ↦
      rw (kept, has_route-kept c n needed os)
        (needed_too (route_subnet n o) (has_route c (map (route_subnet n) os)) kept)
]
  where
    in_needed :
        (c s : String) (needed : List String) (others : Bool)
        → mem s needed ≡ true
        → (s == c || (others && mem c needed)) ≡ ((s == c || others) && mem c needed)
    in_needed c s needed others kept = elim (Bool-cases (s == c)) [
      | inl same ↦
          rw (same, ap (λ (x : String). mem x needed) (sym ((eq_iff s c).0 same)) ∙ kept) refl
      | inr other ↦ rw other refl
    ]

    not_needed :
        (c s : String) (needed : List String) (others : Bool)
        → mem s needed ≡ false
        → (others && mem c needed) ≡ ((s == c || others) && mem c needed)
    not_needed c s needed others gone = elim (Bool-cases (s == c)) [
      | inl same ↦
          rw (same, ap (λ (x : String). mem x needed) (sym ((eq_iff s c).0 same)) ∙ gone)
            (ground arith)
      | inr other ↦ rw other refl
    ]

    unneeded :
        (r : Option String) (others : Bool)
        → is_unneeded needed r ≡ true
        → (others && mem c needed) ≡ ((is_subnet c r || others) && mem c needed)
    unneeded none others h = refl
    unneeded (some s) others h = not_needed c s needed others (ground arith)

    needed_too :
        (r : Option String) (others : Bool)
        → is_unneeded needed r ≡ false
        → (is_subnet c r || (others && mem c needed)) ≡ ((is_subnet c r || others) && mem c needed)
    needed_too none others h = refl
    needed_too (some s) others h = in_needed c s needed others (ground arith)

keep-cong :
    (p q : String → Bool) (xs : List String) → ((x : String) → p x ≡ q x) → keep p xs ≡ keep q xs
keep-cong p q [] h = refl
keep-cong p q (x ∷ xs) h = rw (h x, keep-cong p q xs h) refl

keep-keep :
    (p q : String → Bool) (xs : List String) → keep p (keep q xs) ≡ keep (λ x. q x && p x) xs
keep-keep p q [] = refl
keep-keep p q (x ∷ xs) = elim (Bool-cases (q x)) [
  | inl there ↦ rw (there, keep-keep p q xs) refl
  | inr gone ↦ rw (gone, keep-keep p q xs) refl
]

keep-absent : (s : String) (xs : List String) → mem s xs ≡ false → keep (λ t. not (s == t)) xs ≡ xs
keep-absent s [] h = refl
keep-absent s (t ∷ xs) h = rw (differs, keep-absent s xs (ground arith)) refl
  where
    differs : (s == t) ≡ false
    differs = ground (arith, eq_iff t s, eq_iff s t)

remove_one-keep :
    (s : String) (xs : List String)
    → is_distinct xs ≡ true
    → remove_one s xs ≡ keep (λ t. not (s == t)) xs
unfolding remove_one
remove_one-keep s [] d = refl
remove_one-keep s (t ∷ r) d = elim (Bool-cases (t == s)) [
  | inl e ↦
      rw (e, swapped e)
        (sym (keep-absent s r (ap (λ x. mem x r) (sym ((eq_iff t s).0 e)) ∙ ground arith)))
  | inr ne ↦ rw (ne, swapped ne, remove_one-keep s r (ground arith)) refl
]
  where
    swapped : {b : Bool} → (t == s) ≡ b → (s == t) ≡ b
    swapped h = ground (arith, eq_iff t s, eq_iff s t) ∙ h

keep_all : (xs : List String) → keep (λ x. true) xs ≡ xs
keep_all [] = refl
keep_all (x ∷ xs) = ap (λ r. x ∷ r) (keep_all xs)

-- Removing what exists, one after the other, leaves the subnets without a route.
still_needed-keep :
    (rs : List (Option String)) (needed : List String)
    → is_distinct needed ≡ true
    → still_needed rs needed ≡ keep (λ s. not (has_route s rs)) needed
unfolding still_needed
still_needed-keep [] needed d = sym (keep_all needed)
still_needed-keep (none ∷ rs) needed d = still_needed-keep rs needed d
still_needed-keep (some s ∷ rs) needed d = elim (Bool-cases (mem s needed)) [
  | inl there ↦ rw there (
      still_needed-keep rs (remove_one s needed) (remove_one-is_distinct s needed d)
      ∙ without (remove_one s needed) (remove_one-keep s needed d))
  | inr absent ↦
      rw absent (still_needed-keep rs needed d ∙ without needed (sym (keep-absent s needed absent)))
]
  where
    without :
        (left : List String)
        → left ≡ keep (λ t. not (s == t)) needed
        → keep (λ t. not (has_route t rs)) left ≡ keep (λ t. not (s == t || has_route t rs)) needed
    without left e = rw e (
        keep-keep (λ t. not (has_route t rs)) (λ t. not (s == t)) needed
        ∙ keep-cong _ _ needed (λ t. ground arith))

-- The route of the network for a subnet, in what a device lists.
abbrev pub routed_subnets : Network → List (Dict Json) → List (Option String)
routed_subnets n os = map (route_subnet n) os

-- Both tasks, on a device `d` whose routes are `os`, and on the same device `d'` after the cleanup:
-- it accepts every request, no longer lists what was deleted, and has its routes configured. The
-- cleanup deletes exactly the routes of the network for subnets that need none; the other task
-- makes one route for each subnet that needs one and has none, and no other; and with them, exactly
-- the subnets of the network without SelfIP have a route. Subnets stand once in the network.
pub subnet_routes-needed :
    (d d' : Device) (on_active : Bool) (cidr : String → String × String) (n : Network)
    (selfips : List SelfIp) (os : List (Dict Json))
    → Succeeds d
    → Succeeds d'
    → let needed = subnets_that_need_routes n selfips in
      let kept = keep (λ o. not (is_obsolete n needed o)) os in
      let missing = keep (λ s. not (has_route s (routed_subnets n kept))) needed in
      d.items "/mgmt/tm/net/route" ≡ os
      → d'.items "/mgmt/tm/net/route?$filter=partition+eq+Common" ≡ kept
      → skips on_active d' ≡ false
      → is_distinct needed ≡ true
      → (cleanup_subnet_routes d n selfips false
          ≡ made (map delete_route (keep (is_obsolete n needed) os)))
        × (ensure_subnet_routes d' on_active cidr n selfips
            ≡ made (map (post_route n cidr) missing))
        × ((c : String) → (mem c missing || has_route c (routed_subnets n kept)) ≡ mem c needed)
unfolding cleanup_subnet_routes ensure_subnet_routes
subnet_routes-needed d d' on_active cidr n selfips os h h' sees sees' active distinct =
    let needed = subnets_that_need_routes n selfips in
    let kept = keep (λ o. not (is_obsolete n needed o)) os in
    let rs = routed_subnets n kept in
    (
      rw (sees, delete_routes-eq d n needed h os) refl,
      rw (sees', active)
          (post_routes-eq d' n cidr h' (still_needed rs needed)
            ∙ ap (λ ss. made (map (post_route n cidr) ss)) (still_needed-keep rs needed distinct)),
      λ c. ground (
        arith,
        ap (λ ss. mem c ss) (sym (still_needed-keep rs needed distinct)),
        mem-still_needed c rs needed distinct,
        has_route-kept c n needed os,
      ),
    )
