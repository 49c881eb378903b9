-- ===== src/EsdRepository/Examples.antt =====
-- Two ESDs, the second with a tag of a wrong type.
use octavia_f5_provider_driv.Base.{
  ◌&&◌, ◌≡◌, refl, some, none, [], ◌∷◌, ◌++◌, all, keep, Dict, ok, if◌then◌else◌,
}
use octavia_f5_provider_driv.EsdRepository.{Value, a_text, a_list, verify_esd_dict, get_esd}
use octavia_f5_provider_driv.EsdRepository.Verified.{is_valid, has_valid, get_esd-valid}

abbrev before : Dict (Dict Value)
before = ("proxy", ("lbaas_irule", a_list ("r" ∷ [])) ∷ []) ∷ []

abbrev fast : Dict Value
fast = ("lbaas_fastl4", a_text "p") ∷ ("lbaas_irule", a_text "r") ∷ []

get_esd-valid_example :
    (esds : Dict (Dict Value)) × (verify_esd_dict (before ++ ("fast", fast) ∷ []) ≡ ok esds)
    × (get_esd esds "fast" ≡ (
        if all before (λ e. has_valid e.1) && has_valid fast
        then some (keep is_valid fast)
        else none))
get_esd-valid_example = get_esd-valid "fast" fast [] before refl
