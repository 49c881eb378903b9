-- ===== src/Runs.antt =====
-- Code that makes calls and stops at the first one that raises: the calls made, and how it ended.
use octavia_f5_provider_driv.Base.{
  ◌≡◌, ◌⊎◌, inl, inr, refl, ap, Option, none, some, List, [], ◌∷◌, ◌++◌, append_assoc, All,
  All-append, ℕ, zero, suc, Bool, Bool-cases, retry_error, if◌then◌else◌, Exception, Result, ok,
  err, Option-cases,
}

pub record Run (C A : Type 0) : Type 0 where
  pub calls : List C
  pub result : Result A

abbrev pub outcome : Option Exception → Result (Unit {0})
outcome none = ok tt
outcome (some e) = err e

module _ {C : Type 0} where
  abbrev pub pure : {A : Type 0} → A → Run C A
  pure a = record { calls = []; result = ok a }

  abbrev pub raise : {A : Type 0} → Exception → Run C A
  raise e = record { calls = []; result = err e }

  -- What follows a run that made the calls `cs`.
  abbrev pub continue : {A B : Type 0} → List C → Result A → (A → Run C B) → Run C B
  continue cs (ok a) f = record { calls = cs ++ (f a).calls; result = (f a).result }
  continue cs (err e) f = record { calls = cs; result = err e }

  infixl 5 ◌>>=◌ ◌>>◌
  abbrev pub ◌>>=◌ : {A B : Type 0} → Run C A → (A → Run C B) → Run C B
  r >>= f = continue r.calls r.result f

  abbrev pub ◌>>◌ : {A B : Type 0} → Run C A → Run C B → Run C B
  r >> s = r >>= λ _. s

  -- One call, with what it raises.
  abbrev pub call : (C → Option Exception) → C → Run C (Unit {0})
  call raises c = record { calls = c ∷ []; result = outcome (raises c) }

  -- tenacity: the attempts `n`, `n + 1`, ... of a body, each after an exception that is retried, and
  -- RetryError after the last.
  abbrev pub retried : {A : Type 0} → (Exception → Bool) → List C → Result A → Run C A → Run C A
  retried again cs (ok a) rest = record { calls = cs; result = ok a }
  retried again cs (err e) rest =
      if again e
      then record { calls = cs ++ rest.calls; result = rest.result }
      else record { calls = cs; result = err e }

  pub retry_on : {A : Type 0} → (Exception → Bool) → ℕ → ℕ → (ℕ → Run C A) → Run C A
  retry_on again zero n body = raise retry_error
  retry_on again (suc left) n body =
      let rest = retry_on again left (suc n) body in
      retried again (body n).calls (body n).result rest

  retried-All :
      {A : Type 0} (P : C → Type 0) (again : Exception → Bool) (cs : List C) (r : Result A)
      (rest : Run C A)
      → All P cs
      → All P rest.calls
      → All P (retried again cs r rest).calls
  retried-All P again cs (ok a) rest h k = h
  retried-All P again cs (err e) rest h k = elim (Bool-cases (again e)) [
    | inl b ↦ rw b (All-append P cs rest.calls h k)
    | inr b ↦ rw b h
  ]

  -- What holds of the calls of each attempt holds of all calls.
  pub retry_on-All :
      {A : Type 0} (P : C → Type 0) (again : Exception → Bool) (left n : ℕ) (body : ℕ → Run C A)
      → ((k : ℕ) → All P (body k).calls)
      → All P (retry_on again left n body).calls
  unfolding retry_on
  retry_on-All P again zero n body h = tt
  retry_on-All P again (suc left) n body h =
      retried-All P again (body n).calls (body n).result _ (h n)
        (retry_on-All P again left (suc n) body h)

  -- The calls of a list in order, up to the first one that raises.
  abbrev pub perform : (C → Option Exception) → List C → Run C (Unit {0})
  perform raises [] = pure tt
  perform raises (c ∷ cs) = call raises c >> perform raises cs

  after_calls : {A B : Type 0} → List C → (A → Run C B) → Run C A → Run C B
  after_calls cs g r = record { calls = cs ++ (r >>= g).calls; result = (r >>= g).result }

  continue-append :
      {A B : Type 0} (cs ds : List C) (r : Result A) (g : A → Run C B)
      → continue (cs ++ ds) r g ≡ after_calls cs g (record { calls = ds; result = r })
  unfolding after_calls
  continue-append cs ds (ok b) g = rw (append_assoc cs ds (g b).calls)
  continue-append cs ds (err e) g = refl

  continue_assoc :
      {A B D : Type 0} (cs : List C) (r : Result A) (f : A → Run C B) (g : B → Run C D)
      → (continue cs r f >>= g) ≡ continue cs r (λ a. f a >>= g)
  unfolding after_calls
  continue_assoc cs (ok a) f g = continue-append cs (f a).calls (f a).result g
  continue_assoc cs (err e) f g = refl

  pub >>=_assoc :
      {A B D : Type 0} (r : Run C A) (f : A → Run C B) (g : B → Run C D)
      → (r >>= f >>= g) ≡ (r >>= λ a. f a >>= g)
  >>=_assoc r f g = continue_assoc r.calls r.result f g

  module _ (raises : C → Option Exception) where
    abbrev pub Returns : C → Type 0
    Returns c = raises c ≡ none

    pub call-perform : (c : C) → call raises c ≡ perform raises (c ∷ [])
    call-perform c = elim (Option-cases (raises c)) [ inl h ↦ rw h | inr h ↦ rw h.1 ]

    pub perform-append :
        (xs ys : List C) → perform raises (xs ++ ys) ≡ (perform raises xs >> perform raises ys)
    perform-append [] ys = refl
    perform-append (x ∷ xs) ys = rw (
      perform-append xs ys,
      >>=_assoc (call raises x) (λ _. perform raises xs) (λ _. perform raises ys),
    )

    -- A run that raised: the calls made, the last of which raised, and those that were left out.
    pub record Stopped (xs : List C) : Type 0 where
      pub made : List C
      pub left : List C
      pub exception : Exception
      pub splits : xs ≡ made ++ left
      pub stops : perform raises xs ≡ record { calls = made; result = err exception }

    Stopped-cons : (x : C) (xs : List C) → Returns x → Stopped xs → Stopped (x ∷ xs)
    Stopped-cons x xs h s = record {
      made = x ∷ s.made;
      left = s.left;
      exception = s.exception;
      splits = ap (λ ys. x ∷ ys) s.splits;
      stops = rw (h, s.stops);
    }

    -- Either all calls of a list return, and the run makes them all, or it stops on the way.
    pub perform-cases :
        (xs : List C)
        → (All Returns xs × (perform raises xs ≡ record { calls = xs; result = ok tt }))
          ⊎ Stopped xs
    perform-cases [] = inl (tt, refl)
    perform-cases (x ∷ xs) = elim (Option-cases (raises x)) [
      | inl h ↦ elim (perform-cases xs) [
        | inl done ↦ inl ((h, done.0), rw (h, done.1))
        | inr stopped ↦ inr (Stopped-cons x xs h stopped)
      ]
      | inr h ↦
          inr (record { made = x ∷ []; left = xs; exception = h.0; splits = refl; stops = rw h.1 })
    ]

    pub perform-All : (P : C → Type 0) (xs : List C) → All P xs → All P (perform raises xs).calls
    perform-All P [] h = tt
    perform-All P (x ∷ xs) h = elim (Option-cases (raises x)) [
      | inl returns ↦ rw returns (h.0, perform-All P xs h.1)
      | inr stops ↦ rw stops.1 (h.0, tt)
    ]
