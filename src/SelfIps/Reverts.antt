-- ===== src/SelfIps/Reverts.antt =====
-- What is left of the ports that are created if one of them cannot be.
use octavia_f5_provider_driv.Base.{
  String, Option, none, some, List, [], ◌∷◌, ◌++◌, map, Exception, ok, err,
}
use octavia_f5_provider_driv.Runs.{Run}
use octavia_f5_provider_driv.SelfIps.{
  Port, Created, created, network_not_found, rejected, failed, World, Call, delete_port,
  create_port,
}

-- The ports that are created before the first error, that error, and the requests up to it.
abbrev made_then : Created → List Port → List Port
made_then (created p) later = p ∷ later
made_then network_not_found later = later
made_then (rejected e) later = []
made_then (failed e) later = []

-- An error of the client, which is undone, or another one.
pub data Error : Type 0 where
  undone : Exception → Error
  left_over : Exception → Error

abbrev error_then : Created → Option Error → Option Error
error_then (rejected e) later = some (undone e)
error_then (failed e) later = some (left_over e)
error_then (created p) later = later
error_then network_not_found later = later

abbrev requests_then : Created → List Call → List Call
requests_then (rejected e) later = []
requests_then (failed e) later = []
requests_then (created p) later = later
requests_then network_not_found later = later

module _ (w : World) where
  abbrev pub made : List (String × String) → List Port
  made [] = []
  made ((h, s) ∷ rest) = made_then (w.create h s) (made rest)

  abbrev pub first_error : List (String × String) → Option Error
  first_error [] = none
  first_error ((h, s) ∷ rest) = error_then (w.create h s) (first_error rest)

  abbrev pub requests : List (String × String) → List Call
  requests [] = []
  requests ((h, s) ∷ rest) = create_port h s ∷ requests_then (w.create h s) (requests rest)

-- The end of the loop, for the requests, the ports that exist by then, and the error.
abbrev pub ended : List Call → List Port → Option Error → Run Call (List Port)
ended calls ports none = record { calls = calls; result = ok ports }
ended calls ports (some (left_over e)) = record { calls = calls; result = err e }
ended calls ports (some (undone e)) = record {
  calls = calls ++ map (λ (p : Port). delete_port p.id) ports;
  result = err e;
}
