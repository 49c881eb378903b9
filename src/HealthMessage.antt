-- ===== src/HealthMessage.antt =====
-- The data of octavia_f5/controller/statusmanager/legacy_healthmanager/health_drivers/update_db.py:
-- the heartbeat that a device sends, the load balancer as the database holds it, and the writes.
use octavia_f5_provider_driv.Base.{
  ℕ, String, Bool, true, Option, none, some, List, [], ◌∷◌, ◌≡◌, ◌↔◌, arith, eqb, Dict,
  if◌then◌else◌,
}
use octavia_f5_provider_driv.Octavia.{
  ProvisioningStatus, OperatingStatus, online, offline, degraded, draining, no_monitor,
}

-- Members by id, with the text that the device reports.
pub record PoolReport : Type 0 where
  pub status : String
  pub members : Dict String

-- `pools` is read from messages before version 2 only.
pub record ListenerReport : Type 0 where
  pub status : String
  pub pools : Dict PoolReport

-- `ver` is absent in the oldest messages.
pub record Health : Type 0 where
  pub id : String
  pub ver : Option ℕ
  pub recv_time : ℕ
  pub listeners : Dict ListenerReport
  pub pools : Dict PoolReport

pub record DbListener : Type 0 where
  pub enabled : Bool
  pub is_udp : Bool
  pub operating_status : OperatingStatus

pub record DbPool : Type 0 where
  pub operating_status : OperatingStatus
  pub members : Dict OperatingStatus

-- The dict that `get_lb_for_health_update` returns.
pub record DbLb : Type 0 where
  pub id : String
  pub provisioning_status : ProvisioningStatus
  pub enabled : Bool
  pub operating_status : OperatingStatus
  pub listeners : Dict DbListener
  pub pools : Dict DbPool

pub data Entity : Type 0 where
  loadbalancer listener pool member : Entity

-- repo.update(session, id, operating_status=status)
pub record Write : Type 0 where
  pub entity : Entity
  pub id : String
  pub status : OperatingStatus

abbrev pub op_code : OperatingStatus → ℕ
op_code online = 0
op_code offline = 1
op_code degraded = 2
op_code OperatingStatus.error = 3
op_code draining = 4
op_code no_monitor = 5

abbrev pub op_eq : OperatingStatus → OperatingStatus → Bool
op_eq a b = eqb (op_code a) (op_code b)

pub op_eq_iff : (a b : OperatingStatus) → (op_eq a b ≡ true) ↔ (a ≡ b)
op_eq_iff a b = ground arith

-- `_update_status`: the write, if the status changes. A missing row is logged, and changes nothing
-- that follows.
abbrev pub update_status : Entity → String → OperatingStatus → OperatingStatus → List Write
update_status e id new old =
    if op_eq old new then [] else record { entity = e; id = id; status = new } ∷ []

-- The callers' guard: `status is not None and status != old`.
abbrev pub update_if_new : Entity → String → Option OperatingStatus → OperatingStatus → List Write
update_if_new e id none old = []
update_if_new e id (some new) old = if op_eq new old then [] else update_status e id new old
