-- ===== src/Periodic/TenantNames.antt =====
-- The names of tenants, back and forth.
use Prim.Native.Char.{Char, code}
use Prim.Native.String.{◌++◌}
use text.Mathlib.TextLemmas.{nil-append, cons-append}
use text.Mathlib.TextEquality.{Char-path}
use octavia_f5_provider_driv.Base.{
  String, false, ◌≡◌, refl, ap, arith, eqb, Bool-cases, inl, inr, ◌∙◌,
}
use octavia_f5_provider_driv.Text.{has_char, replace_char}
use octavia_f5_provider_driv.Names.{tenant_name}
use octavia_f5_provider_driv.Periodic.{remove_prefix_network, network_id_of, is_net}

starts-not : (a b c d : Char) → eqb (code a) 110 ≡ false → is_net a b c d ≡ false
starts-not a b c d h = rw h

remove_prefix-none : (s : String) → has_char s "n" ≡ false → remove_prefix_network s ≡ s
unfolding remove_prefix_network
remove_prefix-none String.[] h = refl
remove_prefix-none (String.◌∷◌ a String.[]) h = refl
remove_prefix-none (String.◌∷◌ a (String.◌∷◌ b String.[])) h = refl
remove_prefix-none (String.◌∷◌ a (String.◌∷◌ b (String.◌∷◌ c String.[]))) h = refl
remove_prefix-none (String.◌∷◌ a (String.◌∷◌ b (String.◌∷◌ c (String.◌∷◌ d s)))) h = rw (
  starts-not a b c d (ground arith),
  remove_prefix-none (String.◌∷◌ b (String.◌∷◌ c (String.◌∷◌ d s))) (ground arith),
)

replace_back :
    (s : String) → has_char s "_" ≡ false → replace_char "_" "-" (replace_char "-" "_" s) ≡ s
unfolding replace_char
replace_back String.[] h = refl
replace_back (String.◌∷◌ c s) h = elim (Bool-cases (eqb (code c) 45)) [
  | inl dash ↦
      rw (dash, replace_back s (ground arith))
        (ap (λ d. String.◌∷◌ d s) (Char-path "-" c (ground arith)))
  | inr other ↦ rw (other, under c s h, replace_back s (ground arith))
]
  where
    under :
        (c : Char) (s : String) → has_char (String.◌∷◌ c s) "_" ≡ false → eqb (code c) 95 ≡ false
    under c s h = ground arith

replace-has_char :
    (s : String) → has_char s "n" ≡ false → has_char (replace_char "-" "_" s) "n" ≡ false
unfolding replace_char
replace-has_char String.[] h = refl
replace-has_char (String.◌∷◌ c s) h = elim (Bool-cases (eqb (code c) 45)) [
  | inl dash ↦ rw (dash, replace-has_char s (ground arith))
  | inr other ↦ rw (other, replace-has_char s (ground arith)) (ground arith)
]

net_prefix :
    (s : String) → "net_" ++ s ≡ String.◌∷◌ "n" (String.◌∷◌ "e" (String.◌∷◌ "t" (String.◌∷◌ "_" s)))
net_prefix s =
    cons-append "n" "et_" s
    ∙ ap (λ (t : String). String.◌∷◌ "n" t)
        (cons-append "e" "t_" s
          ∙ ap (λ (t : String). String.◌∷◌ "e" t)
              (cons-append "t" "_" s
                ∙ ap (λ (t : String). String.◌∷◌ "t" t)
                    (cons-append "_" "" s ∙ ap (λ (t : String). String.◌∷◌ "_" t) (nil-append s))))

-- The cleanup of orphaned tenants reads a tenant's name as the network that it was made for, if the
-- network's id has neither an underscore nor an n, as no UUID has.
pub network_id_of-tenant_name :
    (id : String)
    → has_char id "n" ≡ false
    → has_char id "_" ≡ false
    → network_id_of (tenant_name id) ≡ id
unfolding network_id_of tenant_name
network_id_of-tenant_name id no_n no_underscore =
    prefix-removed (replace_char "-" "_" id) (replace-has_char id no_n)
    ∙ replace_back id no_underscore
  where
    prefix-removed :
        (s : String)
        → has_char s "n" ≡ false
        → replace_char "_" "-" (remove_prefix_network ("net_" ++ s)) ≡ replace_char "_" "-" s
    prefix-removed s h = rw (net_prefix s, remove_prefix-none s h)
