-- ===== src/Policy/Supported.antt =====
-- Which L7 policies can be mapped.
use octavia_f5_provider_driv.Base.{
  String, Bool, true, false, ◌&&◌, ◌≡◌, refl, ◌∙◌, Option, none, some, List, [], ◌∷◌, ◌==◌, all,
  any, arith, Result, ok, err, and_then, for_all,
}
use octavia_f5_provider_driv.Octavia.{L7Rule, L7Policy}
use octavia_f5_provider_driv.Policy.{
  CondType, cond_type, operands, condition_of, get_condition, get_action, get_rule,
  get_endpoint_policy,
}

abbrev pub is_ok : {A : Type 0} → Result A → Bool
is_ok (ok _) = true
is_ok (err _) = false

-- The types, compare types and actions that the device has.
abbrev pub one_of : String → List String → Bool
one_of t names = any names (λ n. t == n)

abbrev pub supports_rule : L7Rule → Bool
supports_rule r =
    one_of r.type ("HOST_NAME" ∷ "PATH" ∷ "FILE_TYPE" ∷ "HEADER" ∷ "SSL_DN_FIELD" ∷ "COOKIE" ∷ [])
    && one_of r.compare_type ("STARTS_WITH" ∷ "ENDS_WITH" ∷ "CONTAINS" ∷ "EQUAL_TO" ∷ [])

abbrev pub supports : L7Policy → Bool
supports p =
    all p.l7rules supports_rule
    && one_of p.action ("REDIRECT_TO_POOL" ∷ "REDIRECT_TO_URL" ∷ "REDIRECT_PREFIX" ∷ "REJECT" ∷ [])

abbrev is_given : {A : Type 0} → Option A → Bool
is_given none = false
is_given (some _) = true

is_given-cond_type :
    (t : String)
    → is_given (cond_type t)
      ≡ one_of t ("HOST_NAME" ∷ "PATH" ∷ "FILE_TYPE" ∷ "HEADER" ∷ "SSL_DN_FIELD" ∷ "COOKIE" ∷ [])
unfolding cond_type
is_given-cond_type t = ground arith

is_ok-condition_of :
    (r : L7Rule) (c : Option CondType) (o : Option (String × String))
    → is_ok (condition_of r c o) ≡ (is_given c && is_given o)
unfolding condition_of
is_ok-condition_of r none o = refl
is_ok-condition_of r (some c) none = refl
is_ok-condition_of r (some c) (some (a, b)) = refl

is_given-operands :
    (t : String)
    → is_given (operands t) ≡ one_of t ("STARTS_WITH" ∷ "ENDS_WITH" ∷ "CONTAINS" ∷ "EQUAL_TO" ∷ [])
unfolding operands
is_given-operands t = ground arith

is_ok-get_condition : (r : L7Rule) → is_ok (get_condition r) ≡ supports_rule r
unfolding get_condition
is_ok-get_condition r =
    is_ok-condition_of r (cond_type r.type) (operands r.compare_type)
    ∙ rw (is_given-cond_type r.type, is_given-operands r.compare_type)

and-true : (b : Bool) → (b && true) ≡ b
and-true true = refl
and-true false = refl

is_ok-and_then :
    {A B : Type 0} (r : Result A) (f : A → Result B) (b : Bool)
    → ((a : A) → is_ok (f a) ≡ b)
    → is_ok (and_then r f) ≡ (is_ok r && b)
is_ok-and_then (ok a) f b h = h a
is_ok-and_then (err e) f b h = refl

is_ok-for_all :
    {A B : Type 0} (f : A → Result B) (p : A → Bool) (xs : List A)
    → ((x : A) → is_ok (f x) ≡ p x)
    → is_ok (for_all f xs) ≡ all xs p
is_ok-for_all f p [] h = refl
is_ok-for_all f p (x ∷ xs) h =
    is_ok-and_then (f x) (λ y. and_then (for_all f xs) (λ ys. ok (y ∷ ys))) (all xs p)
      (λ y.
        is_ok-and_then (for_all f xs) (λ ys. ok (y ∷ ys)) true (λ ys. refl)
        ∙ rw (is_ok-for_all f p xs h) (and-true (all xs p)))
    ∙ rw (h x)

is_ok-get_action :
    (p : L7Policy)
    → is_ok (get_action p)
      ≡ one_of p.action ("REDIRECT_TO_POOL" ∷ "REDIRECT_TO_URL" ∷ "REDIRECT_PREFIX" ∷ "REJECT" ∷ [])
unfolding get_action
is_ok-get_action p = ground arith

is_ok-get_rule : (p : L7Policy) → is_ok (get_rule p) ≡ supports p
unfolding get_rule
is_ok-get_rule p =
    is_ok-and_then (for_all get_condition p.l7rules) _ (is_ok (get_action p)) (λ conditions.
      is_ok-and_then (get_action p) _ true (λ action. refl) ∙ and-true (is_ok (get_action p)))
    ∙ rw (
      is_ok-for_all get_condition supports_rule p.l7rules is_ok-get_condition,
      is_ok-get_action p,
    )

-- The policies of a listener are mapped exactly if each of them has an action and only rules of
-- types and compare types that the device has; one that has not fails them all.
pub is_ok-get_endpoint_policy :
    (ps : List L7Policy) → is_ok (get_endpoint_policy ps) ≡ all ps supports
unfolding get_endpoint_policy
is_ok-get_endpoint_policy ps =
    is_ok-and_then (for_all get_rule ps) _ true (λ rules. refl)
    ∙ rw (is_ok-for_all get_rule supports ps is_ok-get_rule) (and-true (all ps supports))
