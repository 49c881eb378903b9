-- ===== src/Esd/Examples.antt =====
-- An ESD with a TCP profile for both sides and an L4 profile.
use octavia_f5_provider_driv.Base.{◌≡◌, refl, some, []}
use octavia_f5_provider_driv.Esd.{Esd, get_esd_entities}

abbrev esd : Esd
esd = record {
  lbaas_irule = [];
  lbaas_ctcp = "tcp-wan";
  lbaas_stcp = "";
  lbaas_fastl4 = "fast";
  lbaas_one_connect = "mux";
  lbaas_http_compression = "";
  lbaas_cudp = "";
}

get_esd_entities_test : (get_esd_entities "Service_L4" esd).profile_l4 ≡ some "fast"
unfolding get_esd_entities
get_esd_entities_test = refl
