-- ===== src/Service/Examples.antt =====
-- A listener for HTTPS with a certificate, allowed networks and an L7 policy.
use octavia_f5_provider_driv.Base.{refl, [], Result, ok, err}
use octavia_f5_provider_driv.Samples.{lb_kept}
use octavia_f5_provider_driv.Service.{get_service}
use octavia_f5_provider_driv.Service.References.{Entities, Within}
use octavia_f5_provider_driv.Service.Linked.{EndsLinked}
use octavia_f5_provider_driv.Service.Declared.{get_service-Within}
use octavia_f5_provider_driv.Service.Consistent.{EndsConsistent, get_service-EndsConsistent}
use octavia_f5_provider_driv.Service.Samples.{environment, https_listener}

abbrev returned : Result Entities → Entities
returned (ok es) = es
returned (err _) = []

abbrev entities : Entities
entities = returned (get_service environment lb_kept https_listener)

get_service-Within_example : Within entities entities × EndsLinked https_listener entities
unfolding get_service
get_service-Within_example = get_service-Within environment https_listener lb_kept entities refl

get_service-EndsConsistent_example : EndsConsistent environment https_listener entities
unfolding get_service
get_service-EndsConsistent_example =
    get_service-EndsConsistent environment https_listener lb_kept entities refl
