-- ===== src/Text/Examples.antt =====
-- A label with a forbidden character.
use octavia_f5_provider_driv.Base.{◌≡◌, refl}
use octavia_f5_provider_driv.Text.{f5label}

f5label_test : f5label "a&b" ≡ "ab"
unfolding f5label
f5label_test = refl
