-- ===== src/SetQueue.antt =====
-- octavia_f5/controller/worker/set_queue.py: the queue of networks that are to be synchronised.
pub mod Pending
mod Examples
use octavia_f5_provider_driv.Base.{
  String, Bool, true, false, ◌&&◌, ◌||◌, not, Option, none, some, List, [], ◌∷◌, ◌==◌, any, keep,
  if◌then◌else◌,
}

-- A network and the device that it is to be sent to, if not all.
pub record Item : Type 0 where
  pub network_id : String
  pub device : Option String

abbrev pub same_device : Option String → Option String → Bool
same_device none none = true
same_device (some a) (some b) = a == b
same_device _ _ = false

abbrev pub same : Item → Item → Bool
same a b = a.network_id == b.network_id && same_device a.device b.device

abbrev pub mem_item : Item → List Item → Bool
mem_item x q = any q (λ y. same y x)

-- `_put`: a set holds an item once.
pub put : Item → List Item → List Item
put x q = if mem_item x q then q else x ∷ q

-- `_get` pops some element of the set, here `x`, which is `none` for an element that it does not
-- have. One element goes.
after : Item → Option (List Item) → Option (List Item)
after y none = none
after y (some rest) = some (y ∷ rest)

pub take : Item → List Item → Option (List Item)
unfolding after
take x [] = none
take x (y ∷ q) = let rest = after y (take x q) in if same y x then some q else rest

-- The operations of the threads on the queue, one after the other.
pub data Operation : Type 0 where
  put_item get_item : Item → Operation

abbrev pub or_stop : Option (List Item) → (List Item → Option (List Item)) → Option (List Item)
or_stop none f = none
or_stop (some q) f = f q

-- `none` for a sequence of operations that a queue cannot have.
unfoldable pub run : List Operation → List Item → Option (List Item)
unfolding put take
run [] q = some q
run (put_item x ∷ ops) q = run ops (put x q)
run (get_item x ∷ ops) q = or_stop (take x q) (λ q'. run ops q')
