-- ===== src/SyncManager/Targets.antt =====
-- Which device a failover chooses.
use octavia_f5_provider_driv.Base.{
  Bool, true, false, ◌≡◌, ◌⊎◌, refl, List, [], ◌∷◌, keep, any, Result, ok, err, failover_exception,
  Bool-cases, inl, inr,
}
use octavia_f5_provider_driv.SyncManager.{Device, World, failover, has_state, first_or}

-- The device stands in the list.
abbrev pub Among : Device → List Device → Type 0
Among d [] = ⊥
Among d (b ∷ bs) = (d ≡ b) ⊎ Among d bs

-- What a choice among the devices promises.
abbrev pub Chooses : World → Bool → List Device → Result Device → Type 0
Chooses w state bs (ok d) = Among d bs × (has_state w state d ≡ true)
Chooses w state bs (err e) = (e ≡ failover_exception) × (any bs (has_state w state) ≡ false)

Chooses-cons :
    (w : World) (state : Bool) (b : Device) (bs : List Device) (r : Result Device)
    → has_state w state b ≡ false
    → Chooses w state bs r
    → Chooses w state (b ∷ bs) r
Chooses-cons w state b bs (ok d) misses h = (inr h.0, h.1)
Chooses-cons w state b bs (err e) misses h = (h.0, rw misses h.1)

first_or-Chooses :
    (w : World) (state : Bool) (bs : List Device)
    → Chooses w state bs (first_or failover_exception (keep (has_state w state) bs))
first_or-Chooses w state [] = (refl, refl)
first_or-Chooses w state (b ∷ bs) = elim (Bool-cases (has_state w state b)) [
  | inl fits ↦ rw fits (inl refl, fits)
  | inr misses ↦ rw misses (
      Chooses-cons w state b bs (first_or failover_exception (keep (has_state w state) bs)) misses
        (first_or-Chooses w state bs))
]

-- With two devices or more, a failover chooses one of them that is in the state asked for, active or
-- passive; it raises FailoverException exactly if no device is in that state.
pub failover-Chooses :
    (w : World) (state : Bool) (b c : Device) (bs : List Device)
    → Chooses w state (b ∷ c ∷ bs) (failover w state (b ∷ c ∷ bs))
unfolding failover
failover-Chooses w state b c bs = first_or-Chooses w state (b ∷ c ∷ bs)
