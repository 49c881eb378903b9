-- ===== src/SetQueue/Examples.antt =====
-- Two puts of a network, one of them while it is taken.
use octavia_f5_provider_driv.Base.{◌≡◌, refl, none, List, [], ◌∷◌}
use octavia_f5_provider_driv.SetQueue.{Item, Operation, put_item, get_item, mem_item, run}
use octavia_f5_provider_driv.SetQueue.Pending.{is_pending, run-Pending, Once}

abbrev one : Item
one = record { network_id = "net1"; device = none }

abbrev operations : List Operation
operations = put_item one ∷ put_item one ∷ get_item one ∷ put_item one ∷ []

abbrev left : List Item
left = one ∷ []

run-Pending_example :
    Once left × ((x : Item) → mem_item x left ≡ is_pending x operations (mem_item x []))
unfolding run
run-Pending_example = run-Pending operations [] left tt refl
