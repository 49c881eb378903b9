-- ===== src/SelfIps/Coverage.antt =====
-- That each device gets one SelfIP in each subnet.
use mathlib.Core.Path.{subst}
use octavia_f5_provider_driv.Base.{
  String, Bool, true, false, not, ◌&&◌, ◌||◌, ◌≡◌, refl, Option, none, some, List, [], ◌∷◌, ◌==◌,
  map, mem, any, any-append, arith, eq_iff, eq_refl, Bool-cases, inl, inr,
}
use octavia_f5_provider_driv.SelfIps.{
  Port, World, Claims, has_claim, Filtered, is_valid, place, claimed, filter_ports, filter_selfips,
  missing_of, missing,
}

-- Every claim is of a host and a needed subnet.
abbrev InRange : List String → List String → Claims → Type 0
InRange hosts needed claims =
    (h s : String) → has_claim h s claims ≡ true → (mem h hosts && mem s needed) ≡ true

has_claim-missing_of :
    (needed : List String) (claims : Claims) (k h s : String)
    → has_claim h s (missing_of needed claims k)
      ≡ (k == h && (mem s needed && not (has_claim k s claims)))
has_claim-missing_of [] claims k h s = ground arith
has_claim-missing_of (t ∷ needed) claims k h s = elim (Bool-cases (has_claim k t claims)) [
  | inl old ↦
      rw (old, has_claim-missing_of needed claims k h s)
        (elim (Bool-cases (t == s)) [
          | inl same ↦
              rw (same, subst (λ x. has_claim k x claims ≡ true) ((eq_iff t s).0 same) old)
                (ground arith)
          | inr other ↦ rw other
        ])
  | inr new ↦
      rw (new, has_claim-missing_of needed claims k h s)
        (elim (Bool-cases (t == s)) [
          | inl same ↦
              rw (same, subst (λ x. has_claim k x claims ≡ false) ((eq_iff t s).0 same) new)
                (ground arith)
          | inr other ↦ rw other (ground arith)
        ])
]

has_claim-missing :
    (hosts needed : List String) (claims : Claims) (h s : String)
    → has_claim h s (missing hosts needed claims)
      ≡ (mem h hosts && (mem s needed && not (has_claim h s claims)))
has_claim-missing [] needed claims h s = refl
has_claim-missing (k ∷ hosts) needed claims h s =
    rw
      (
        any-append (missing_of needed claims k) (missing hosts needed claims)
            (λ c. c.0 == h && c.1 == s),
        has_claim-missing_of needed claims k h s,
        has_claim-missing hosts needed claims h s,
      )
      (elim (Bool-cases (k == h)) [
        | inl same ↦ rw ((eq_iff k h).0 same, eq_refl h) (ground arith)
        | inr other ↦ rw other
      ])

-- The port is a SelfIP of this host and subnet by its name.
abbrev pub is_named : Option (String × String) → String → String → Bool
is_named none h s = false
is_named (some c) h s = c.0 == h && c.1 == s

abbrev pub is_for : World → String → String → Port → Bool
is_for w h s p = is_named (w.parse p.name) h s

module _ (w : World) (hosts needed : List String) where
  abbrev named : List Port → List (Port × Option (String × String))
  named ports = map (λ (p : Port). (p, w.parse p.name)) ports

  abbrev filtered : List (Port × Option (String × String)) → Claims → Filtered
  filtered = filter_ports w true hosts needed

  abbrev next : Bool → String → String → Claims → Claims
  next = claimed w true hosts needed

  claimed-InRange :
      (k t : String) (claims : Claims)
      → InRange hosts needed claims
      → InRange hosts needed (next (is_valid w true hosts needed k t claims) k t claims)
  claimed-InRange k t claims r = λ h s.
      elim (Bool-cases (is_valid w true hosts needed k t claims)) [
        | inr invalid ↦ rw invalid (r h s)
        | inl valid ↦ rw valid (λ found. added valid h s (r h s) found)
      ]
    where
      added :
          is_valid w true hosts needed k t claims ≡ true
          → (h s : String) → (has_claim h s claims ≡ true → (mem h hosts && mem s needed) ≡ true)
          → (k == h && t == s || has_claim h s claims) ≡ true
          → (mem h hosts && mem s needed) ≡ true
      added valid h s r found = elim (Bool-cases (k == h && t == s)) [
        | inr other ↦ r (rw other at found)
        | inl same ↦
            subst (λ x. (mem x hosts && mem s needed) ≡ true) ((eq_iff k h).0 (ground arith))
              (subst (λ y. (mem k hosts && mem y needed) ≡ true) ((eq_iff t s).0 (ground arith))
                (ground arith))
      ]

  -- What a port adds: its claim if it is valid, and itself among the kept ones exactly then.
  step :
      (p : Port) (o : Option (String × String)) (ps : List (Port × Option (String × String)))
      (claims : Claims) (h s : String)
      → w.parse p.name ≡ o
      → ((c : Claims)
          → has_claim h s (filtered ps c).claims
            ≡ (has_claim h s c || any (filtered ps c).kept (is_for w h s)))
      → has_claim h s (filtered ((p, o) ∷ ps) claims).claims
        ≡ (has_claim h s claims || any (filtered ((p, o) ∷ ps) claims).kept (is_for w h s))
  unfolding filter_ports place
  step p none ps claims h s e ih = ih claims
  step p (some (k, t)) ps claims h s e ih =
      elim (Bool-cases (is_valid w true hosts needed k t claims)) [
        | inr invalid ↦ rw invalid (ih claims)
        | inl valid ↦ rw (valid, ih ((k, t) ∷ claims), e) (ground arith)
      ]

  kept-claims :
      (ports : List Port) (claims : Claims) (h s : String)
      → has_claim h s (filtered (named ports) claims).claims
        ≡ (has_claim h s claims || any (filtered (named ports) claims).kept (is_for w h s))
  kept-claims [] claims h s = unfold filter_ports in ground arith
  kept-claims (p ∷ ports) claims h s =
      step p (w.parse p.name) (named ports) claims h s refl (λ c. kept-claims ports c h s)

  in_range :
      (ps : List (Port × Option (String × String))) (claims : Claims)
      → InRange hosts needed claims
      → InRange hosts needed (filtered ps claims).claims
  unfolding filter_ports place
  in_range [] claims r = r
  in_range ((p, none) ∷ ps) claims r = in_range ps claims r
  in_range ((p, some (k, t)) ∷ ps) claims r =
      let valid = is_valid w true hosts needed k t claims in
      let later = in_range ps (next valid k t claims) (claimed-InRange k t claims r) in
      elim (Bool-cases valid) [
        | inl yes_it_is ↦ rw yes_it_is (rw yes_it_is at later)
        | inr invalid ↦ rw invalid (rw invalid at later)
      ]

  -- With the cleanup of orphans, the ports that are kept and those that are requested give a SelfIP
  -- to a host and a subnet exactly if the host is a device of the agent and the subnet is needed,
  -- and a port is requested exactly where none is kept.
  pub filter_selfips-covers :
      (ports : List Port) (h s : String)
      → (let f = filter_selfips w true hosts needed ports in
          ((any f.kept (is_for w h s) || has_claim h s (missing hosts needed f.claims))
            ≡ (mem h hosts && mem s needed))
          × ((any f.kept (is_for w h s) && has_claim h s (missing hosts needed f.claims)) ≡ false))
  unfolding filter_selfips
  filter_selfips-covers ports h s =
      let f = filtered (named ports) [] in
      let r = in_range (named ports) [] (λ h s e. absurd (ground arith)) h s in
      let k = kept-claims ports [] h s in
      rw (has_claim-missing hosts needed f.claims h s) (ground arith, ground arith)
