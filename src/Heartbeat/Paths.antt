-- ===== src/Heartbeat/Paths.antt =====
-- The ids that the heartbeat reads from the paths of virtual servers and pools.
use Prim.Native.Char.{Char, code}
use Prim.Native.String.{◌++◌ as ◌+++◌}
use text.Mathlib.TextLemmas.{nil-append, cons-append}
use octavia_f5_provider_driv.Base.{
  ℕ, suc, ◌-◌, String, Bool, true, false, ◌≡◌, refl, sym, ap, arith, eqb, Bool-cases, inl, inr, ◌∙◌,
  none, some, List, [], ◌∷◌,
}
use octavia_f5_provider_driv.Text.{
  has_char, replace_char, split_char, drop_parts, starts_with, size,
}
use octavia_f5_provider_driv.Names.{tenant_name, application_name, listener_name, pool_name}
use octavia_f5_provider_driv.Heartbeat.{
  third, listener_from_path, pool_from_path, loadbalancer_from_path,
}

has_char-append :
    (s t : String) (c : Char)
    → has_char s c ≡ false
    → has_char t c ≡ false
    → has_char (s +++ t) c ≡ false
has_char-append String.[] t c h k = rw (nil-append t) k
has_char-append (String.◌∷◌ d s) t c h k =
    let rest = has_char-append s t c (ground arith) k in rw (cons-append d s t) (ground arith)

replace-has_char :
    (s : String) → has_char s "/" ≡ false → has_char (replace_char "-" "_" s) "/" ≡ false
unfolding replace_char
replace-has_char String.[] h = refl
replace-has_char (String.◌∷◌ c s) h = elim (Bool-cases (eqb (code c) 45)) [
  | inl dash ↦ rw (dash, replace-has_char s (ground arith))
  | inr other ↦ rw (other, replace-has_char s (ground arith)) (ground arith)
]

replace-none : (s : String) → has_char s "_" ≡ false → replace_char "_" "-" s ≡ s
unfolding replace_char
replace-none String.[] h = refl
replace-none (String.◌∷◌ c s) h = rw (other c s h, replace-none s (ground arith)) refl
  where
    other :
        (c : Char) (s : String) → has_char (String.◌∷◌ c s) "_" ≡ false → eqb (code c) 95 ≡ false
    other c s h = ground arith

-- A path is split at each slash.
split-alone : (s : String) → has_char s "/" ≡ false → split_char "/" s ≡ s ∷ []
unfolding split_char
split-alone String.[] h = refl
split-alone (String.◌∷◌ c s) h = rw (other c s h, split-alone s (ground arith)) refl
  where
    other :
        (c : Char) (s : String) → has_char (String.◌∷◌ c s) "/" ≡ false → eqb (code c) 47 ≡ false
    other c s h = ground arith

split-front :
    (s t : String)
    → has_char s "/" ≡ false
    → split_char "/" (s +++ String.◌∷◌ "/" t) ≡ s ∷ split_char "/" t
unfolding split_char
split-front String.[] t h = rw (nil-append (String.◌∷◌ "/" t)) refl
split-front (String.◌∷◌ c s) t h =
    rw (cons-append c s (String.◌∷◌ "/" t), other c s h, split-front s t (ground arith)) refl
  where
    other :
        (c : Char) (s : String) → has_char (String.◌∷◌ c s) "/" ≡ false → eqb (code c) 47 ≡ false
    other c s h = ground arith

drop_parts-unmatched :
    (part : String) (c : Char) (s : String)
    → starts_with part (String.◌∷◌ c s) ≡ false
    → drop_parts part 0 (String.◌∷◌ c s) ≡ String.◌∷◌ c (drop_parts part 0 s)
unfolding drop_parts
drop_parts-unmatched part c s h =
    ap
      (λ (b : Bool). elim b [
        | true ↦ drop_parts part (size part - 1) s
        | false ↦ String.◌∷◌ c (drop_parts part 0 s)
      ])
      h

drop_parts-matched :
    (part : String) (c : Char) (s : String)
    → starts_with part (String.◌∷◌ c s) ≡ true
    → drop_parts part 0 (String.◌∷◌ c s) ≡ drop_parts part (size part - 1) s
unfolding drop_parts
drop_parts-matched part c s h =
    ap
      (λ (b : Bool). elim b [
        | true ↦ drop_parts part (size part - 1) s
        | false ↦ String.◌∷◌ c (drop_parts part 0 s)
      ])
      h

starts_with-other :
    (c d : Char) (part s : String)
    → has_char (String.◌∷◌ d s) c ≡ false
    → starts_with (String.◌∷◌ c part) (String.◌∷◌ d s) ≡ false
unfolding starts_with
starts_with-other c d part s h = rw (differ c d s h) refl
  where
    differ :
        (c d : Char) (s : String)
        → has_char (String.◌∷◌ d s) c ≡ false
        → eqb (code c) (code d) ≡ false
    differ c d s h = ground arith

drop_parts-empty : (part : String) → drop_parts part 0 String.[] ≡ String.[]
unfolding drop_parts
drop_parts-empty part = refl

drop_parts-none :
    (c : Char) (part s : String) → has_char s c ≡ false → drop_parts (String.◌∷◌ c part) 0 s ≡ s
drop_parts-none c part String.[] h = drop_parts-empty (String.◌∷◌ c part)
drop_parts-none c part (String.◌∷◌ d s) h =
    drop_parts-unmatched (String.◌∷◌ c part) d s (starts_with-other c d part s h)
    ∙ ap (λ (t : String). String.◌∷◌ d t) (drop_parts-none c part s (ground arith))

drop_parts-skip : (part t s : String) → drop_parts part (size t) (t +++ s) ≡ drop_parts part 0 s
unfolding drop_parts
drop_parts-skip part String.[] s = rw (nil-append s) refl
drop_parts-skip part (String.◌∷◌ c t) s = rw (cons-append c t s) (drop_parts-skip part t s)

starts_with-append : (t s : String) → starts_with t (t +++ s) ≡ true
unfolding starts_with
starts_with-append String.[] s = refl
starts_with-append (String.◌∷◌ c t) s =
    rw (cons-append c t s, starts_with-append t s) (ground arith)

less_one : (n : ℕ) → suc n - 1 ≡ n
less_one n = omega arith

-- A prefix is taken out once when the rest does not have its first character.
drop_parts-prefix :
    (c : Char) (part s : String)
    → has_char s c ≡ false
    → drop_parts (String.◌∷◌ c part) 0 (String.◌∷◌ c part +++ s) ≡ s
drop_parts-prefix c part s h =
    ap (λ t. drop_parts (String.◌∷◌ c part) 0 t) (cons-append c part s)
    ∙ drop_parts-matched (String.◌∷◌ c part) c (part +++ s) (
        ap (λ t. starts_with (String.◌∷◌ c part) t) (sym (cons-append c part s))
        ∙ starts_with-append (String.◌∷◌ c part) s)
    ∙ ap (λ (k : ℕ). drop_parts (String.◌∷◌ c part) k (part +++ s)) (less_one (size part))
    ∙ drop_parts-skip (String.◌∷◌ c part) part s
    ∙ drop_parts-none c part s h

-- The path of an object in the application of a load balancer, in the partition of its network.
abbrev pub object_path : String → String → String → String
object_path network_id loadbalancer_id name =
    "/"
    +++ (tenant_name network_id +++ ("/" +++ (application_name loadbalancer_id +++ ("/" +++ name))))

-- An id has no slash, no underscore, and not the letters that the prefixes begin with: l and p.
-- A UUID is such.
abbrev pub IsId : String → Type 0
IsId id =
    (has_char id "/" ≡ false)
    × (has_char id "_" ≡ false)
    × (has_char id "l" ≡ false)
    × (has_char id "p" ≡ false)

tenant_name-has_char :
    (id : String) → has_char id "/" ≡ false → has_char (tenant_name id) "/" ≡ false
unfolding tenant_name
tenant_name-has_char id h =
    has_char-append "net_" (replace_char "-" "_" id) "/" refl (replace-has_char id h)

pub listener_name-has_char :
    (id : String) → has_char id "/" ≡ false → has_char (listener_name id) "/" ≡ false
listener_name-has_char id h = has_char-append "listener_" id "/" refl h

pub pool_name-has_char :
    (id : String) → has_char id "/" ≡ false → has_char (pool_name id) "/" ≡ false
pool_name-has_char id h = has_char-append "pool_" id "/" refl h

split-slash : (s : String) → split_char "/" ("/" +++ s) ≡ "" ∷ split_char "/" s
unfolding split_char
split-slash s = rw (cons-append "/" "" s, nil-append s) refl

split-front_slash :
    (s t : String)
    → has_char s "/" ≡ false
    → split_char "/" (s +++ ("/" +++ t)) ≡ s ∷ split_char "/" t
split-front_slash s t h =
    ap (λ (x : String). split_char "/" (s +++ x))
      (cons-append "/" "" t ∙ ap (λ (x : String). String.◌∷◌ "/" x) (nil-append t))
    ∙ split-front s t h

split-object_path :
    (n lb name : String)
    → has_char n "/" ≡ false
    → has_char lb "/" ≡ false
    → has_char name "/" ≡ false
    → split_char "/" (object_path n lb name) ≡ "" ∷ tenant_name n ∷ application_name lb ∷ name ∷ []
split-object_path n lb name hn hl hm =
    split-slash (tenant_name n +++ ("/" +++ (application_name lb +++ ("/" +++ name))))
    ∙ ap (λ (r : List String). "" ∷ r)
        (split-front_slash (tenant_name n) (application_name lb +++ ("/" +++ name))
            (tenant_name-has_char n hn)
          ∙ ap (λ (r : List String). tenant_name n ∷ r)
              (split-front_slash (application_name lb) name (has_char-append "lb_" lb "/" refl hl)
                ∙ ap (λ (r : List String). application_name lb ∷ r) (split-alone name hm)))

-- The id of the load balancer, of a listener and of a pool are read back from such a path.
pub loadbalancer_from_path-object_path :
    (n lb name : String)
    → has_char n "/" ≡ false
    → IsId lb
    → has_char name "/" ≡ false
    → loadbalancer_from_path (object_path n lb name) ≡ some lb
unfolding loadbalancer_from_path third
loadbalancer_from_path-object_path n lb name hn (s, u, l, _) hm =
    ap
      (λ (parts : List String). elim (third parts) [
        | none ↦ none
        | some part ↦ some (replace_char "_" "-" (drop_parts "lb_" 0 part))
      ])
      (split-object_path n lb name hn s hm)
    ∙ ap (λ (t : String). some (replace_char "_" "-" t)) (drop_parts-prefix "l" "b_" lb l)
    ∙ ap (λ (t : String). some t) (replace-none lb u)

pub listener_from_path-object_path :
    (n lb id : String)
    → has_char n "/" ≡ false
    → IsId lb
    → IsId id
    → listener_from_path (object_path n lb (listener_name id)) ≡ id
unfolding listener_from_path
listener_from_path-object_path n lb id hn (s, _, _, _) (is, u, l, _) =
    rw
      (
        split-object_path n lb (listener_name id) hn s (listener_name-has_char id is),
        drop_parts-prefix "l" "istener_" id l,
      )
      (replace-none id u)

pub pool_from_path-object_path :
    (n lb id : String)
    → has_char n "/" ≡ false
    → IsId lb
    → IsId id
    → pool_from_path (object_path n lb (pool_name id)) ≡ id
unfolding pool_from_path
pool_from_path-object_path n lb id hn (s, _, _, _) (is, u, _, p) =
    rw
      (
        split-object_path n lb (pool_name id) hn s (pool_name-has_char id is),
        drop_parts-prefix "p" "ool_" id p,
      )
      (replace-none id u)
