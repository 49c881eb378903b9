-- ===== src/DeviceRest.antt =====
-- What the tasks of octavia_f5/controller/worker/tasks/f5_tasks.py ask of a device: requests with JSON
-- objects, and the answers.
use octavia_f5_provider_driv.Base.{
  ℕ, String, Bool, true, false, ◌&&◌, Option, none, some, List, [], ◌∷◌, ◌==◌, all, eqb, Dict,
  lookup, Exception, icontrol_rest, ok, err, if◌then◌else◌,
}
use octavia_f5_provider_driv.Runs.{Run}

-- The values that occur; `tagged` is the list with one tagged interface in service mode.
pub data Json : Type 0 where
  text : String → Json
  number : ℕ → Json
  texts : List String → Json
  tagged : (interface : String) → Json

abbrev pub same_texts : List String → List String → Bool
same_texts [] [] = true
same_texts (a ∷ r) (b ∷ s) = a == b && same_texts r s
same_texts _ _ = false

abbrev pub same_json : Json → Json → Bool
same_json (text a) (text b) = a == b
same_json (number a) (number b) = eqb a b
same_json (texts a) (texts b) = same_texts a b
same_json (tagged a) (tagged b) = a == b
same_json _ _ = false

abbrev pub is_value : Json → Option Json → Bool
is_value v none = false
is_value v (some u) = same_json v u

-- wanted.items() <= device.items()
abbrev pub covers : Dict Json → Dict Json → Bool
covers device wanted = all wanted (λ e. is_value e.1 (lookup e.0 device))

pub data Request : Type 0 where
  post : (path : String) → Dict Json → Request
  patch : (path : String) → Dict Json → Request
  delete : (path : String) → Request

-- A device while a task runs. `get` is `none` for 404, or where the code tests for it, for an answer
-- that is not ok, and `reread` is the same for each attempt of a task that is retried; `items` is what a collection holds; `answer` is the object in the answer to a
-- request, and `fails` says of a request, in which attempt, that its answer is not ok.
pub record Device : Type 0 where
  pub is_active : Bool
  pub get : String → Option (Dict Json)
  pub reread : ℕ → String → Option (Dict Json)
  pub items : String → List (Dict Json)
  pub answer : Request → Dict Json
  pub fails : ℕ → Request → Bool

-- res.raise_for_status(); return res.json(), with the exception that reaches the caller.
abbrev pub send_or : Exception → Device → ℕ → Request → Run Request (Dict Json)
send_or e d n r = record { calls = r ∷ []; result = if d.fails n r then err e else ok (d.answer r) }

-- In a task with RaisesIControlRestError.
abbrev pub send : Device → Request → Run Request (Dict Json)
send d r = send_or icontrol_rest d 0 r

-- A request whose failure is only logged.
abbrev pub attempt : Request → Run Request (Unit {0})
attempt r = record { calls = r ∷ []; result = ok tt }

abbrev pub text_of : Option Json → String
text_of (some (text s)) = s
text_of _ = ""

abbrev pub texts_of : Option Json → List String
texts_of (some (texts s)) = s
texts_of _ = []

-- object['name']
abbrev pub name_in : Dict Json → String
name_in o = text_of (lookup "name" o)

-- A network as the tasks see it; `vlan` is the number `vlan_id` as a text.
pub record Network : Type 0 where
  pub id : String
  pub vlan_id : ℕ
  pub vlan : String
  pub mtu : ℕ
  pub subnets : List String

-- A SelfIP port: its id, and the first of its addresses with the subnets of all.
pub record SelfIp : Type 0 where
  pub id : String
  pub ip_address : String
  pub subnet_ids : List String
