-- ===== src/EsdRepository/Verified.antt =====
-- Which ESDs are found by their names.
use octavia_f5_provider_driv.Base.{
  String, Bool, true, false, ◌&&◌, ◌≡◌, refl, sym, Option, none, some, [], ◌∷◌, ◌++◌, keep, any,
  all, eq_refl, Bool-cases, inl, inr, Dict, ◌==◌, lookup, contains, input_file_error, ok, err,
  and_then, if◌then◌else◌,
}
use mathlib.Core.Bool.{false≢true}
use octavia_f5_provider_driv.EsdRepository.{
  ValueType, Value, is_instance, valid_esd_tags, verify_tag, verify_type, verify_value, is_added,
  verify_esd, add_esd, verify_esd_dict, get_esd, is_some,
}

abbrev pub has_type : Value → Option ValueType → Bool
has_type value none = false
has_type value (some t) = is_instance value t

-- The tag is known, and the value has its type.
abbrev pub is_valid : String × Value → Bool
is_valid (tag, value) = has_type value (lookup tag valid_esd_tags)

abbrev pub has_valid : Dict Value → Bool
has_valid esd = any esd is_valid

is_added-test : (b : Bool) → is_added (if b then ok tt else err input_file_error) ≡ ok b
unfolding is_added
is_added-test true = refl
is_added-test false = refl

is_added-type :
    (value : Value) (o : Option ValueType)
    → is_added
        (and_then (if is_some o then ok tt else err input_file_error) (λ _. verify_type value o))
      ≡ ok (has_type value o)
unfolding is_added verify_type
is_added-type value none = refl
is_added-type value (some t) = is_added-test (is_instance value t)

verify_esd-keep : (esd : Dict Value) → verify_esd esd ≡ ok (keep is_valid esd)
unfolding verify_esd verify_tag verify_value
verify_esd-keep [] = refl
verify_esd-keep ((tag, value) ∷ esd) =
    rw (is_added-type value (lookup tag valid_esd_tags), verify_esd-keep esd) refl

-- What is kept of an ESD: nothing, or a first tag and more.
keep-none : (esd : Dict Value) → has_valid esd ≡ false → keep is_valid esd ≡ []
keep-none [] h = refl
keep-none (t ∷ esd) h = elim (Bool-cases (is_valid t)) [
  | inl valid ↦ absurd (false≢true (sym (rw valid at h)))
  | inr invalid ↦ rw invalid (keep-none esd (rw invalid at h))
]

abbrev Starts : Dict Value → Type 0
Starts ts = (t : String × Value) × (r : Dict Value) × (ts ≡ t ∷ r)

keep-Starts : (esd : Dict Value) → has_valid esd ≡ true → Starts (keep is_valid esd)
keep-Starts [] h = cc
keep-Starts (t ∷ esd) h = elim (Bool-cases (is_valid t)) [
  | inl valid ↦ (t, keep is_valid esd, rw valid refl)
  | inr invalid ↦ rw invalid (keep-Starts esd (rw invalid at h))
]

-- The ESDs up to the first one without a valid tag, each with its valid tags.
abbrev verified : Dict (Dict Value) → Dict (Dict Value)
verified [] = []
verified ((name, esd) ∷ esds) =
    let rest = verified esds in if has_valid esd then (name, keep is_valid esd) ∷ rest else []

verify_esd_dict-verified : (esds : Dict (Dict Value)) → verify_esd_dict esds ≡ ok (verified esds)
unfolding verify_esd_dict
verify_esd_dict-verified [] = refl
verify_esd_dict-verified ((name, esd) ∷ esds) = elim (Bool-cases (has_valid esd)) [
  | inl found ↦
      rw (verify_esd-keep esd, verify_esd_dict-verified esds, found)
        (added (keep is_valid esd) (keep-Starts esd found))
  | inr empty ↦
      rw (verify_esd-keep esd, verify_esd_dict-verified esds, keep-none esd empty, empty) stopped
]
  where
    added :
        (ts : Dict Value)
        → Starts ts
        → add_esd name ts (ok (verified esds)) ≡ ok ((name, ts) ∷ verified esds)
    added ts (t, r, e) = rw e refl

    stopped : add_esd name [] (ok (verified esds)) ≡ ok []
    stopped = refl

module _ (name : String) (esd : Dict Value) (post : Dict (Dict Value)) where
  lookup-verified :
      (pre : Dict (Dict Value))
      → contains name pre ≡ false
      → lookup name (verified (pre ++ (name, esd) ∷ post))
        ≡ (if all pre (λ e. has_valid e.1) && has_valid esd then some (keep is_valid esd) else none)
  lookup-verified [] h = elim (Bool-cases (has_valid esd)) [
    | inl found ↦ rw (found, eq_refl name) refl
    | inr empty ↦ rw empty refl
  ]
  lookup-verified ((n, e) ∷ pre) h = elim (Bool-cases (has_valid e)) [
    | inl found ↦ elim (Bool-cases (n == name)) [
      | inl same ↦ absurd (false≢true (sym (rw same at h)))
      | inr differs ↦ rw (found, differs) (lookup-verified pre (rw differs at h))
    ]
    | inr empty ↦ rw empty refl
  ]

  -- An ESD is found by its name exactly if it and each one before it has a valid tag: one that is
  -- known, with a value of its type. It then has its valid tags, in their order. Checking never
  -- raises. This is for a name that no ESD before has; the first ESD without valid tags hides all
  -- that follow it.
  pub get_esd-valid :
      (pre : Dict (Dict Value))
      → contains name pre ≡ false
      → (esds : Dict (Dict Value)) × (verify_esd_dict (pre ++ (name, esd) ∷ post) ≡ ok esds)
        × (get_esd esds name ≡ (
            if all pre (λ e. has_valid e.1) && has_valid esd
            then some (keep is_valid esd)
            else none))
  unfolding get_esd
  get_esd-valid pre h = (
    verified (pre ++ (name, esd) ∷ post),
    verify_esd_dict-verified (pre ++ (name, esd) ∷ post),
    lookup-verified pre h,
  )
