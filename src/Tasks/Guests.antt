-- ===== src/Tasks/Guests.antt =====
-- What the VLAN of a managed guest comes to.
use package.text.Mathlib.TextLemmas.{cons-append}
use mathlib.Core.Bool.{false≢true}
use octavia_f5_provider_driv.Base.{
  String, true, false, ◌≡◌, refl, ◌∙◌, sym, ap, Option, none, some, List, [], ◌∷◌, ◌++◌, ◌==◌, map,
  mem, eq_iff, Bool-cases, inl, inr, Dict, if◌then◌else◌,
}
use octavia_f5_provider_driv.Text.{concat, starts_with}
use octavia_f5_provider_driv.Runs.{pure, ◌>>=◌}
use octavia_f5_provider_driv.DeviceRest.{Json, text, texts, Request, patch, Device, send, name_in}
use octavia_f5_provider_driv.Tasks.{vlans_of, ensure_guests, ensure_guest_vlan}

slash : (v : String) → starts_with "/" (concat "/Common/" v) ≡ true
unfolding starts_with
slash v = rw (cons-append "/" "Common/" v) refl

no_slash : (x : String) → starts_with "/" (concat "vlan-" x) ≡ false
unfolding starts_with
no_slash x = rw (cons-append "v" "lan-" x) refl

differs : (v x : String) → (concat "/Common/" v == concat "vlan-" x) ≡ false
differs v x = elim (Bool-cases (concat "/Common/" v == concat "vlan-" x)) [
  | inr h ↦ h
  | inl h ↦ absurd (
      false≢true (
        sym (no_slash x)
        ∙ sym (ap (λ (s : String). starts_with "/" s) ((eq_iff _ _).0 h))
        ∙ slash v))
]

never_found :
    (x : String) (vs : List String)
    → mem (concat "vlan-" x) (map (λ v. concat "/Common/" v) vs) ≡ false
never_found x [] = refl
never_found x (v ∷ vs) = rw (differs v x) (never_found x vs)

abbrev pub first_managed : List String → List (Dict Json) → Option (Dict Json)
first_managed names [] = none
first_managed names (g ∷ gs) = if mem (name_in g) names then some g else first_managed names gs

abbrev pub appended : String → Option (Dict Json) → List Request
appended vlan none = []
appended vlan (some g) =
    patch (concat "/mgmt/tm/vcmp/guest/" (name_in g))
      (("vlans", texts (vlans_of g ++ concat "/Common/" vlan ∷ [])) ∷ [])
    ∷ []

sent-calls : (d : Device) (r : Request) → (send d r >>= λ o. pure (some o)).calls ≡ r ∷ []
sent-calls d r = elim (Bool-cases (d.fails 0 r)) [ inl h ↦ rw h refl | inr h ↦ rw h refl ]

ensure_guests-appends :
    (d : Device) (names : List String) (x : String) (gs : List (Dict Json))
    (seen : Option (Dict Json))
    → (ensure_guests d names (concat "vlan-" x) gs seen).calls
      ≡ appended (concat "vlan-" x) (first_managed names gs)
unfolding ensure_guests
ensure_guests-appends d names x [] seen = refl
ensure_guests-appends d names x (g ∷ gs) seen = elim (Bool-cases (mem (name_in g) names)) [
  | inr other ↦ rw other (ensure_guests-appends d names x gs seen)
  | inl managed ↦ rw (managed, never_found x (vlans_of g)) (sent-calls d _)
]

-- EnsureGuestVLAN compares the name of the VLAN, `vlan-` and a number, with the guest's VLANs behind one more
-- `/Common/`, and so never finds it: whatever VLANs the guests have, the task appends the VLAN to
-- those of the first managed guest, also one that has it, and to no other guest.
pub ensure_guest_vlan-appends :
    (d : Device) (names : List String) (vlan : Dict Json) (x : String)
    → name_in vlan ≡ concat "vlan-" x
    → (ensure_guest_vlan d names vlan).calls
      ≡ appended (concat "vlan-" x) (first_managed names (d.items "/mgmt/tm/vcmp/guest"))
unfolding ensure_guest_vlan
ensure_guest_vlan-appends d names vlan x e =
    rw e (ensure_guests-appends d names x (d.items "/mgmt/tm/vcmp/guest") none)
