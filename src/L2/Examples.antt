-- ===== src/L2/Examples.antt =====
-- Two devices, of which one is to be configured, and every flow fails.
use octavia_f5_provider_driv.Base.{◌≡◌, refl, true, some, [], ◌∷◌, ok}
use octavia_f5_provider_driv.L2.{Port, bound, World, ensure_l2_flow}
use octavia_f5_provider_driv.L2.Failures.{ensure_l2_flow-one_device}

abbrev port : Port
port = record { id = "selfip"; subnet_id = "subnet" }

abbrev world : World
world = record {
  bigips = "a" ∷ "b" ∷ [];
  vcmps = [];
  override_vcmp_guest_names = [];
  network = λ _. bound;
  selfips_for = λ _ ports. ports;
  fails = λ _. true;
}

ensure_l2_flow-one_device_example :
    (ensure_l2_flow world (port ∷ []) "net1" (some "a")).result ≡ ok tt
ensure_l2_flow-one_device_example =
    ensure_l2_flow-one_device world port [] "net1" "a" "b" port [] refl refl refl refl refl
