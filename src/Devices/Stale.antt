-- ===== src/Devices/Stale.antt =====
-- A failed transaction of the device status manager.
use octavia_f5_provider_driv.Base.{
  String, Bool, true, false, ◌≡◌, refl, some, none, eq_refl, insert, lookup-insert, Exception, ok,
}
use octavia_f5_provider_driv.Devices.{
  State, World, is_available, update_availability, availability, check_device, stored, same,
}

-- A new status is stored before the transaction, and an exception of the transaction is raised again. So
-- if the transaction for a device fails, the table stays as it was, the exception reaches the
-- caller, and the next check of this device in which it answers in the same way, whatever else it
-- meets, changes nothing and raises nothing: it does not try the transaction again. (The update of
-- another device, or after a failover, writes the rows of all.)
pub check_device-stale :
    (w w' : World) (b : String) (s : State) (a : Bool) (e : Exception)
    → availability (w.get b) ≡ ok a
    → availability (w'.get b) ≡ ok a
    → same (is_available s b) a ≡ false
    → w.commit b ≡ some e
    → let c = check_device w b s (availability (w.get b)) in
      (c.raised ≡ some e)
      × (c.state.table ≡ s.table)
      × (check_device w' b c.state (availability (w'.get b))
          ≡ record { state = c.state; raised = none })
unfolding check_device stored update_availability
check_device-stale w w' b s a e h h' new fails = rw (h, h', new, fails) (refl, refl, unchanged)
  where
    s' : State
    s' = record s { bigip_status = insert b a s.bigip_status }

    same_self : (x : Bool) → same x x ≡ true
    same_self true = refl
    same_self false = refl

    unchanged : check_device w' b s' (ok a) ≡ record { state = s'; raised = none }
    unchanged = rw (lookup-insert b b a s.bigip_status, eq_refl b, same_self a) refl
