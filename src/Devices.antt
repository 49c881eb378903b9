-- ===== src/Devices.antt =====
-- The devices in octavia_f5/controller/statusmanager/status_manager.py: which is active, which can be
-- reached, and what the amphora table says of them.
pub mod Availability
pub mod Stale
mod Examples
use octavia_f5_provider_driv.Base.{
  ℕ, ◌+◌, String, Bool, true, false, not, ◌&&◌, Option, none, some, List, [], ◌∷◌, ◌++◌, ◌==◌, leb,
  Dict, lookup, insert, Exception, timeout, Result, ok, err, if◌then◌else◌,
}

-- The states of an amphora that stand for a device.
pub data AmphoraStatus : Type 0 where
  ready allocated booting : AmphoraStatus

pub data Role : Type 0 where
  master backup : Role

-- A row of the amphora table for a device of this host: those with the host as `compute_flavor`, no
-- load balancer, and the device's name as `cached_zone`. The code reads and writes them by these
-- three columns only, so they are a dict by name.
pub record Row : Type 0 where
  pub status : AmphoraStatus
  pub role : Option Role
  pub vrrp_priority : Option ℕ

abbrev pub is_ready : AmphoraStatus → Bool
is_ready ready = true
is_ready _ = false

abbrev pub is_allocated : AmphoraStatus → Bool
is_allocated allocated = true
is_allocated _ = false

-- The object's attributes, and the table.
pub record State : Type 0 where
  pub bigips : List String
  pub bigip_status : Dict Bool
  pub active_bigip : Option String
  pub last_failover_check : ℕ
  pub last_cleanup_check : ℕ
  pub table : Dict Row

-- The outside during one check: what each device says of itself, what an attempt to reach it raises,
-- and what the transaction raises that is made for it.
pub record World : Type 0 where
  pub is_active : String → Bool
  pub get : String → Option Exception
  pub commit : String → Option Exception

-- `for b in self.bigips: if b.is_active: self._active_bigip = b`
last_active : World → String → List String → String
last_active w b [] = b
last_active w b (c ∷ cs) = last_active w (if w.is_active c then c else b) cs

abbrev pub first_of : List String → String
first_of [] = ""
first_of (b ∷ _) = b

abbrev pub option_or : {A : Type 0} → Option A → A → A
option_or none a = a
option_or (some a) _ = a

-- The property `bigip`: the device, and what it leaves in `_active_bigip`.
pub bigip : World → State → String
unfolding last_active
bigip w s = option_or s.active_bigip (last_active w (first_of s.bigips) s.bigips)

pub with_bigip : World → State → State
unfolding bigip
with_bigip w s = record s { active_bigip = some (bigip w s) }

-- `self.bigip_status[hostname]`; every device has an entry.
abbrev pub is_available : State → String → Bool
is_available s b = option_or (lookup b s.bigip_status) false

-- The status that a device gets: a device that is back waits for a full sync.
pub status_of : Bool → Option Row → AmphoraStatus
status_of false _ = allocated
status_of true none = booting
status_of true (some row) = if is_ready row.status then ready else booting

update_row : World → State → String → Dict Row → Dict Row
unfolding status_of
update_row w s b t =
    insert b
      (record {
        status = status_of (is_available s b) (lookup b t);
        role = some (if w.is_active b then master else backup);
        vrrp_priority = elim (lookup b t) [ none ↦ none | some row ↦ row.vrrp_priority ];
      })
      t

pub update_rows : World → State → List String → Dict Row → Dict Row
unfolding update_row
update_rows w s [] t = t
update_rows w s (b ∷ bs) t = update_rows w s bs (update_row w s b t)

-- One transaction: DatabaseLockSession rolls it back and raises again if it fails.
pub update_availability : World → Option Exception → State → Result State
unfolding update_rows
update_availability w none s = ok (record s { table = update_rows w s s.bigips s.table })
update_availability w (some e) s = err e

abbrev pub is_timeout : Exception → Bool
is_timeout timeout = true
is_timeout _ = false

-- The answer to `requests.get`: Timeout is caught, and nothing else.
pub availability : Option Exception → Result Bool
availability none = ok true
availability (some e) = if is_timeout e then ok false else err e

abbrev pub same : Bool → Bool → Bool
same true b = b
same false b = not b

-- A state, and the exception that ended the loop, if one did: what was stored in the object stays.
pub record Checked : Type 0 where
  pub state : State
  pub raised : Option Exception

-- The update of the database after the new status is stored.
pub stored : World → String → State → Result State → Checked
stored w b s (ok s') = record { state = s'; raised = none }
stored w b s (err e) = record { state = s; raised = some e }

pub check_device : World → String → State → Result Bool → Checked
unfolding stored update_availability
check_device w b s (err e) = record { state = s; raised = some e }
check_device w b s (ok available) =
    let s' = record s { bigip_status = insert b available s.bigip_status } in
    if same (is_available s b) available
    then record { state = s; raised = none }
    else stored w b s' (update_availability w (w.commit b) s')

pub availability_check : World → List String → State → Checked
unfolding check_device availability
availability_check w [] s = record { state = s; raised = none }
availability_check w (b ∷ bs) s =
    let c = check_device w b s (availability (w.get b)) in
    elim c.raised [ none ↦ availability_check w bs c.state | some e ↦ c ]

-- `failover_check`, and whether the event is sent. The transaction is the one for "".
pub failover_check : World → State → Checked × Bool
unfolding with_bigip bigip update_availability
failover_check w s =
    let s' = with_bigip w s in
    let device = bigip w s in
    let lost = record s' { active_bigip = none } in
    if is_available s' device && not (w.is_active device)
    then elim (update_availability w (w.commit "") lost) [
      | ok s'' ↦ (record { state = s''; raised = none }, true)
      | err e ↦ (record { state = lost; raised = some e }, false)
    ]
    else (record { state = s'; raised = none }, false)

abbrev pub counted : ℕ → Option Row → Row
counted n none = record { status = allocated; role = none; vrrp_priority = some n }
counted n (some old) = record old { vrrp_priority = some n }

-- update_listener_count: the row of the active device.
pub update_listener_count : World → Option Exception → ℕ → State → Result State
unfolding with_bigip bigip
update_listener_count w (some e) n s = err e
update_listener_count w none n s =
    let device = bigip w s in
    ok (record (with_bigip w s) {
      table = insert device (counted n (lookup device s.table)) s.table;
    })

-- The start of `heartbeat`: both checks are made if their intervals have passed, here by one clock.
pub checks : World → ℕ → ℕ → State → Checked × Bool
unfolding availability_check failover_check
checks w now interval s =
    let s' = record s { last_failover_check = now } in
    if leb (s.last_failover_check + interval) now
    then (let c = availability_check w s'.bigips s' in
        elim c.raised [ none ↦ failover_check w c.state | some e ↦ (c, false) ])
    else (record { state = s; raised = none }, false)
