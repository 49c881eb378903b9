-- ===== src/Base/Dicts.antt =====
-- Python's `dict` with text keys, as an association list in insertion order.
use Prim.Native.String.{String}
use mathlib.Core.Path.{◌≡◌, refl, sym}
use mathlib.Core.Bool.{Bool, false, false≢true}
use mathlib.Core.Option.{Option, none, some}
use mathlib.Core.List.{List, [], ◌∷◌}
use native.Mathlib.Omega.{arith}
use text.Mathlib.Text.{◌==◌}
use text.Mathlib.TextEquality.{eq_iff}
use mathlib.Core.Logic.{inl, inr}
use octavia_f5_provider_driv.Base.Tests.{if◌then◌else◌, Bool-cases}
use octavia_f5_provider_driv.Base.Lists.{mem, any}

abbrev pub Dict {ℓ} : Type ℓ → Type ℓ
Dict V = List (String × V)

module _ {ℓ} {V : Type ℓ} where
  -- d.get(k)
  abbrev pub lookup : String → Dict V → Option V
  lookup k [] = none
  lookup k ((j, v) ∷ m) = if j == k then some v else lookup k m

  -- d[k] = v: a present key keeps its place.
  abbrev pub insert : String → V → Dict V → Dict V
  insert k v [] = (k, v) ∷ []
  insert k v ((j, w) ∷ m) = if j == k then (k, v) ∷ m else (j, w) ∷ insert k v m

  -- d.pop(k, None), del d[k]
  abbrev pub remove : String → Dict V → Dict V
  remove k [] = []
  remove k ((j, v) ∷ m) = let rest = remove k m in if j == k then rest else (j, v) ∷ rest

  -- k in d
  abbrev pub contains : String → Dict V → Bool
  contains k m = any m (λ e. e.0 == k)

  -- d.update(e)
  abbrev pub update : Dict V → Dict V → Dict V
  update m [] = m
  update m ((k, v) ∷ e) = update (insert k v m) e

  pub lookup-insert :
      (k j : String) (v : V) (m : Dict V)
      → lookup j (insert k v m) ≡ (if k == j then some v else lookup j m)
  lookup-insert k j v [] = refl
  lookup-insert k j v ((i, w) ∷ m) =
      ground (arith, eq_iff k j, eq_iff i k, eq_iff i j, lookup-insert k j v m)

  pub lookup-remove :
      (k j : String) (m : Dict V) → lookup j (remove k m) ≡ (if k == j then none else lookup j m)
  lookup-remove k j [] = ground arith
  lookup-remove k j ((i, v) ∷ m) =
      ground (arith, eq_iff k j, eq_iff i k, eq_iff i j, lookup-remove k j m)

-- No key stands twice, as in every `dict`.
abbrev pub Distinct {ℓ} : {V : Type ℓ} → Dict V → Type 0
Distinct [] = Unit
Distinct ((k, v) ∷ m) = (contains k m ≡ false) × Distinct m

-- No key is among the names.
abbrev pub NoneOf {ℓ} : {V : Type ℓ} → List String → Dict V → Type 0
NoneOf names [] = Unit
NoneOf names ((k, v) ∷ m) = (mem k names ≡ false) × NoneOf names m

pub NoneOf-nil {ℓ} : {V : Type ℓ} (m : Dict V) → NoneOf [] m
NoneOf-nil [] = tt
NoneOf-nil ((k, v) ∷ m) = (refl, NoneOf-nil m)

pub NoneOf-cons {ℓ} :
    {V : Type ℓ} (k : String) (names : List String) (m : Dict V)
    → contains k m ≡ false
    → NoneOf names m
    → NoneOf (k ∷ names) m
NoneOf-cons k names [] absent h = tt
NoneOf-cons k names ((j, v) ∷ m) absent h = elim (Bool-cases (j == k)) [
  | inl same ↦ absurd (false≢true (sym (rw same at absent)))
  | inr other ↦
      (ground (arith, eq_iff j k, eq_iff k j), NoneOf-cons k names m (rw other at absent) h.1)
]

pub ruleset dict_laws = (lookup-insert, lookup-remove)
