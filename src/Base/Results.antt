-- ===== src/Base/Results.antt =====
-- A call that returns or raises: the exceptions that the program's own code raises or catches.
use mathlib.Core.Path.{◌≡◌}
use mathlib.Core.Bool.{Bool, true, false}
use mathlib.Core.List.{List, [], ◌∷◌}
use octavia_f5_provider_driv.Base.Tests.{if◌then◌else◌}

-- `retry_error` is tenacity's RetryError; `connection_error` includes requests' ConnectTimeout, which
-- is a ConnectionError too; `neutron_unavailable` is Conflict, InternalServerError
-- or ServiceUnavailable of Neutron's client; `other` is an exception that no modelled handler names.
pub data Exception : Type 0 where
  as3_exception retry_exception failover_exception : Exception
  connection_error timeout http_error no_result_found retry_error : Exception
  delete_all_tenants certificate_retrieval certificate_gone : Exception
  policy_type_not_supported compare_type_not_supported policy_action_not_supported : Exception
  input_file_error validation_exception attribute_error other : Exception
  key_error index_error value_error icontrol_rest type_not_supported : Exception
  neutron_unavailable : Exception

pub data Result {ℓ} (A : Type ℓ) : Type ℓ where
  ok : A → Result A
  err : Exception → Result A

-- What follows a call that may raise.
abbrev pub and_then : {A B : Type 0} → Result A → (A → Result B) → Result B
and_then (ok a) f = f a
and_then (err e) f = err e

-- The same for each item of a list, up to the first one that raises.
abbrev pub for_all : {A B : Type 0} → (A → Result B) → List A → Result (List B)
for_all f [] = ok []
for_all f (x ∷ xs) = and_then (f x) (λ b. and_then (for_all f xs) (λ bs. ok (b ∷ bs)))

-- What holds of the value of a call, if it returns.
abbrev pub Holds {ℓ} : {A : Type 0} → (A → Type ℓ) → Result A → Type ℓ
Holds P (ok a) = P a
Holds P (err e) = Unit

pub Holds-and_then {ℓ κ} :
    {A B : Type 0} (P : A → Type ℓ) (Q : B → Type κ) (r : Result A) (f : A → Result B)
    → Holds P r
    → ((a : A) → P a → Holds Q (f a))
    → Holds Q (and_then r f)
Holds-and_then P Q (ok a) f h k = k a h
Holds-and_then P Q (err e) f h k = tt

pub Holds-any {ℓ} : {A : Type 0} (P : A → Type ℓ) (r : Result A) → ((a : A) → P a) → Holds P r
Holds-any P (ok a) h = h a
Holds-any P (err e) h = tt

-- Only the values that a call does return.
pub Holds-and_then_any {ℓ} :
    {A B : Type 0} (Q : B → Type ℓ) (r : Result A) (f : A → Result B)
    → ((a : A) → Holds Q (f a))
    → Holds Q (and_then r f)
Holds-and_then_any Q (ok a) f k = k a
Holds-and_then_any Q (err e) f k = tt

pub Holds-if {ℓ} :
    {A : Type 0} (P : A → Type ℓ) (t : Bool) (r s : Result A)
    → Holds P r
    → Holds P s
    → Holds P (if t then r else s)
Holds-if P true r s h k = h
Holds-if P false r s h k = k

pub Holds-returned {ℓ} :
    {A : Type 0} (P : A → Type ℓ) (r : Result A) (a : A) → Holds P r → r ≡ ok a → P a
Holds-returned P r a h e = rw e at h

pub Holds-weaken {ℓ κ} :
    {A : Type 0} (P : A → Type ℓ) (Q : A → Type κ) (r : Result A)
    → ((a : A) → P a → Q a)
    → Holds P r
    → Holds Q r
Holds-weaken P Q (ok a) f h = f a h
Holds-weaken P Q (err e) f h = tt
