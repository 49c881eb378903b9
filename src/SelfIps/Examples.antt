-- ===== src/SelfIps/Examples.antt =====
-- One device with a SelfIP, one without.
use octavia_f5_provider_driv.Base.{
  Bool, Exception, ◌==◌, ◌≡◌, ◌||◌, ◌&&◌, true, false, some, any, mem, [], ◌∷◌,
}
use octavia_f5_provider_driv.SelfIps.{
  Created, rejected, Port, World, created, filter_selfips, missing, has_claim,
}
use octavia_f5_provider_driv.SelfIps.Coverage.{is_for, filter_selfips-covers}

abbrev port : Port
port = record { id = "p1"; name = "local-a-subnet1" }

abbrev world : World
world = record { parse = λ _. some ("a", "subnet1"); create = λ _ _. created port }

filter_selfips-covers_example :
    ((any
          (filter_selfips world true ("a" ∷ "b" ∷ []) ("subnet1" ∷ []) (port ∷ port ∷ [])).kept
          (is_for world "b" "subnet1")
        || has_claim "b" "subnet1" (
            missing
              ("a" ∷ "b" ∷ [])
              ("subnet1" ∷ [])
              (filter_selfips world true
                ("a" ∷ "b" ∷ [])
                ("subnet1" ∷ [])
                (port ∷ port ∷ [])).claims))
      ≡ (mem "b" ("a" ∷ "b" ∷ []) && mem "subnet1" ("subnet1" ∷ [])))
    × ((any
            (filter_selfips world true ("a" ∷ "b" ∷ []) ("subnet1" ∷ []) (port ∷ port ∷ [])).kept
            (is_for world "b" "subnet1")
          && has_claim "b" "subnet1" (
              missing
                ("a" ∷ "b" ∷ [])
                ("subnet1" ∷ [])
                (filter_selfips world true
                  ("a" ∷ "b" ∷ [])
                  ("subnet1" ∷ [])
                  (port ∷ port ∷ [])).claims))
        ≡ false)
filter_selfips-covers_example =
    filter_selfips-covers world ("a" ∷ "b" ∷ []) ("subnet1" ∷ []) (port ∷ port ∷ []) "b" "subnet1"

-- The request for the second device fails.
abbrev answer : Bool → Created
answer true = created port
answer false = rejected Exception.other

abbrev failing_world : World
failing_world = record world { create = λ host _. answer (host == "a") }
