-- ===== src/Tasks/Examples.antt =====
-- A device without the VLAN, with one managed guest that has it.
use octavia_f5_provider_driv.Base.{
  true, false, not, eqb, some, ◌++◌, ok, err, retry_error, if◌then◌else◌, ◌≡◌, refl, none, [], ◌∷◌,
  List, Dict,
}
use octavia_f5_provider_driv.Text.{concat}
use octavia_f5_provider_driv.DeviceRest.{Json, text, texts, Device, Network}
use octavia_f5_provider_driv.Tasks.{NetworkingConf, ensure_vlan, ensure_guest_vlan}
use octavia_f5_provider_driv.Tasks.Settled.{asked, refused, vlan_of, ensure_vlan-asked}
use octavia_f5_provider_driv.Tasks.Guests.{appended, first_managed, ensure_guest_vlan-appends}

abbrev guests : List (Dict Json)
guests = (("name", text "guest") ∷ ("vlans", texts ("/Common/vlan-7" ∷ [])) ∷ []) ∷ []

abbrev device : Device
device = record {
  is_active = true;
  get = λ path. none;
  reread = λ k path. none;
  items = λ path. guests;
  answer = λ r. [];
  fails = λ n r. false;
}

abbrev network : Network
network = record { id = "n"; vlan_id = 7; vlan = "7"; mtu = 1500; subnets = [] }

abbrev conf : NetworkingConf
conf = record { hardware_syncookie = true; syn_flood_rate_limit = 2000; syncache_threshold = 32000 }

-- The device refuses the first request, and has another VLAN when it is asked again.
abbrev reluctant : Device
reluctant = record device {
  reread = λ k path. if eqb k 0 then none else some (("name", text "vlan-7") ∷ []);
  fails = λ k r. eqb k 0;
}

ensure_vlan-asked_example :
    ((ensure_vlan reluctant conf network).calls
      ≡ asked reluctant conf network 0
        ++ (if refused reluctant conf network 0
            then asked reluctant conf network 1
              ++ (if refused reluctant conf network 1 then asked reluctant conf network 2 else [])
            else []))
    × ((ensure_vlan reluctant conf network).result ≡ (
        if not (refused reluctant conf network 0)
        then ok (vlan_of reluctant conf network 0)
        else if not (refused reluctant conf network 1)
        then ok (vlan_of reluctant conf network 1)
        else if not (refused reluctant conf network 2)
        then ok (vlan_of reluctant conf network 2)
        else err retry_error))
ensure_vlan-asked_example = ensure_vlan-asked reluctant conf network

ensure_guest_vlan-appends_example :
    (ensure_guest_vlan device ("guest" ∷ []) (("name", text "vlan-7") ∷ [])).calls
    ≡ appended (concat "vlan-" "7") (first_managed ("guest" ∷ []) guests)
ensure_guest_vlan-appends_example =
    ensure_guest_vlan-appends device ("guest" ∷ []) (("name", text "vlan-7") ∷ []) "7" refl
