-- ===== src/Heartbeat/Examples.antt =====
-- A virtual server with two connections, another load balancer's, and a pool with a member that is
-- down.
use octavia_f5_provider_driv.Base.{
  ℕ, String, ◌≡◌, refl, none, some, List, [], ◌∷◌, Dict, lookup, Result, ok, err, Option,
}
use octavia_f5_provider_driv.HealthMessage.{PoolReport}
use octavia_f5_provider_driv.Names.{tenant_name}
use octavia_f5_provider_driv.Heartbeat.{
  VirtualStats, PoolStats, ListenerStats, Message, heartbeat, stats_of, pool_report,
}
use octavia_f5_provider_driv.Heartbeat.Messages.{listeners_in, pools_in}
use octavia_f5_provider_driv.Heartbeat.Reported.{Place, last_at, objects, heartbeat-reported}

abbrev stats_at : String → VirtualStats
stats_at path = record {
  path = path;
  bits_out = 10;
  bits_in = 20;
  cur_conns = 2;
  tot_conns = 3;
  slow_killed = 0;
}

abbrev virtuals : List (Place × VirtualStats)
virtuals =
    (
      record { network_id = "1-2"; loadbalancer_id = "a-b"; id = "1-c" },
      stats_at "/net_1_2/lb_a-b/listener_1-c",
    )
    ∷ (
      record { network_id = "1-2"; loadbalancer_id = "d-e"; id = "2-c" },
      stats_at "/net_1_2/lb_d-e/listener_2-c",
    )
    ∷ []

abbrev pools : List (Place × PoolStats)
pools =
    (
      record { network_id = "1-2"; loadbalancer_id = "a-b"; id = "3-f" },
      record {
        path = "/net_1_2/lb_a-b/pool_3-f";
        availability_state = "available";
        items =
            record { description = some "m1"; full_path = "/net_1_2/lb_a-b/10.0.0.1%7:80" } ∷ [];
        self_link = "https://localhost/pool/members/stats?ver=1";
        entries =
            (
              "https://localhost/pool/members/~net_1_2~lb_a-b~10.0.0.1%257:80/stats",
              record { enabled_state = "enabled"; monitor_status = "down" },
            )
            ∷ [];
      },
    )
    ∷ []

abbrev returned : Result (Dict Message) → Dict Message
returned (ok ms) = ms
returned (err _) = []

abbrev messages : Dict Message
messages = returned (heartbeat (some (objects virtuals)) (objects pools)).1

abbrev pool_of : Option PoolReport → String × Dict String
pool_of none = ("", [])
pool_of (some r) = (r.status, r.members)

abbrev sent_of : Option ListenerStats → Option (String × ℕ)
sent_of none = none
sent_of (some l) = some (l.status, l.tx)

listener_reported :
    sent_of (lookup "1-c" (listeners_in (lookup "a-b" messages))) ≡ some ("OPEN", 10)
unfolding heartbeat
listener_reported = refl

pool_reported :
    pool_of (lookup "3-f" (pools_in (lookup "a-b" messages))) ≡ ("UP", ("m1", "DOWN") ∷ [])
unfolding heartbeat
pool_reported = refl

heartbeat-reported_example :
    (ms : Dict Message) × ((heartbeat (some (objects virtuals)) (objects pools)).1 ≡ ok ms)
    × ((lb l : String)
        → lookup l (listeners_in (lookup lb ms)) ≡ last_at stats_of lb l virtuals none)
    × ((lb p : String) → lookup p (pools_in (lookup lb ms)) ≡ last_at pool_report lb p pools none)
unfolding tenant_name
heartbeat-reported_example =
    heartbeat-reported virtuals pools
      (
        refl,
        (refl, refl, refl, refl),
        (refl, refl, refl, refl),
        refl,
        (refl, (refl, refl, refl, refl), (refl, refl, refl, refl), refl, tt),
      )
      (refl, (refl, refl, refl, refl), (refl, refl, refl, refl), refl, tt)
