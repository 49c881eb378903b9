-- ===== src/Tasks/Settled.antt =====
-- How often a task asks a device for a change.
use octavia_f5_provider_driv.Base.{
  ℕ, String, Bool, false, not, sym, ap, List, ◌++◌, append-nil, ◌≡◌, refl, Option, none, some, [],
  ◌∷◌, http_error, Bool-cases, inl, inr, Dict, retry_error, ok, err, if◌then◌else◌,
}
use octavia_f5_provider_driv.Text.{concat}
use octavia_f5_provider_driv.Runs.{Run}
use octavia_f5_provider_driv.DeviceRest.{
  Json, covers, Request, post, patch, Device, send_or, Network,
}
use octavia_f5_provider_driv.Tasks.{
  NetworkingConf, vlan_name, wanted_vlan, ensured, ensure_vlan_once, retry_http, ensure_vlan,
}

-- The change that the VLAN needs: none, if what is there covers what is wanted.
abbrev pub needed : Network → NetworkingConf → Option (Dict Json) → Option Request
needed n c none = some (post "/mgmt/tm/net/vlan" (wanted_vlan c n))
needed n c (some o) =
    if covers o (wanted_vlan c n)
    then none
    else some (patch (concat "/mgmt/tm/net/vlan/~Common~" (vlan_name n)) (wanted_vlan c n))

module _ (d : Device) (c : NetworkingConf) (n : Network) where
  -- What an attempt finds, the change that it asks for, and whether that is refused.
  abbrev pub found : ℕ → Option (Dict Json)
  found k =
      d.reread k
        (concat (concat "/mgmt/tm/net/vlan/~Common~" (vlan_name n)) "?expandSubcollections=true")

  abbrev pub refuses : ℕ → Option Request → Bool
  refuses k none = false
  refuses k (some r) = d.fails k r

  abbrev pub refused : ℕ → Bool
  refused k = refuses k (needed n c (found k))

  abbrev pub asked : ℕ → List Request
  asked k = elim (needed n c (found k)) [ none ↦ [] | some r ↦ r ∷ [] ]

  -- The VLAN after an attempt that is not refused.
  abbrev pub vlan_after : Option (Dict Json) → Option Request → Dict Json
  vlan_after none none = []
  vlan_after (some o) none = o
  vlan_after _ (some r) = d.answer r

  abbrev pub vlan_of : ℕ → Dict Json
  vlan_of k = vlan_after (found k) (needed n c (found k))

  once : ℕ → Run Request (Dict Json)
  once k = record { calls = asked k; result = if refused k then err http_error else ok (vlan_of k) }

  ensure_vlan_once-eq : (k : ℕ) → ensure_vlan_once d c n k ≡ once k
  unfolding ensure_vlan_once once
  ensure_vlan_once-eq k = by_answer (found k)
    where
      path : String
      path = concat "/mgmt/tm/net/vlan/~Common~" (vlan_name n)

      by_answer :
          (o : Option (Dict Json))
          → ensured (send_or http_error d k) "/mgmt/tm/net/vlan" path (wanted_vlan c n) o ≡ record {
            calls = elim (needed n c o) [ none ↦ [] | some r ↦ r ∷ [] ];
            result =
                if refuses k (needed n c o)
                then err http_error
                else ok (vlan_after o (needed n c o));
          }
      by_answer none = refl
      by_answer (some o) = elim (Bool-cases (covers o (wanted_vlan c n))) [
        | inl there ↦ rw there refl
        | inr differs ↦ rw differs refl
      ]

  -- Each attempt looks for the VLAN again and asks for at most one change: to create it if it is not
  -- there, to change it if it lacks a property that is wanted, and for none otherwise. There are at
  -- most three attempts, each after the first only because the change before it was refused; the
  -- task returns what the attempt that was not refused has, and ends in RetryError if all three
  -- were.
  pub ensure_vlan-asked :
      ((ensure_vlan d c n).calls
        ≡ asked 0 ++ (if refused 0 then asked 1 ++ (if refused 1 then asked 2 else []) else []))
      × ((ensure_vlan d c n).result ≡ (
          if not (refused 0)
          then ok (vlan_of 0)
          else if not (refused 1)
          then ok (vlan_of 1)
          else if not (refused 2)
          then ok (vlan_of 2)
          else err retry_error))
  unfolding ensure_vlan retry_http once
  ensure_vlan-asked =
      rw (ensure_vlan_once-eq 0, ensure_vlan_once-eq 1, ensure_vlan_once-eq 2)
        (elim (Bool-cases (refused 0)) [
          | inr ok0 ↦ rw ok0 (sym (append-nil (asked 0)), refl)
          | inl no0 ↦ elim (Bool-cases (refused 1)) [
            | inr ok1 ↦ rw (no0, ok1) (ap (λ r. asked 0 ++ r) (sym (append-nil (asked 1))), refl)
            | inl no1 ↦ elim (Bool-cases (refused 2)) [
              | inr ok2 ↦ rw (no0, no1, ok2) (refl, refl)
              | inl no2 ↦
                  rw (no0, no1, no2)
                    (ap (λ r. asked 0 ++ (asked 1 ++ r)) (append-nil (asked 2)), refl)
            ]
          ]
        ])
