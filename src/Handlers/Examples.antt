-- ===== src/Handlers/Examples.antt =====
-- A listener that the database shows on the third read, and entities that it never shows.
use octavia_f5_provider_driv.Base.{ℕ, zero, suc, ◌<◌, ◌≡◌, refl, arith, none, some, Option, [], ◌∷◌}
use octavia_f5_provider_driv.Octavia.{LoadBalancer}
use octavia_f5_provider_driv.Samples.{lb_new}
use octavia_f5_provider_driv.Handlers.{listener, World}
use octavia_f5_provider_driv.Handlers.Retries.{create, Queues, create-Queues}

abbrev third_read : ℕ → Option LoadBalancer
third_read (suc (suc zero)) = some lb_new
third_read _ = none

abbrev slow_world : World
slow_world = record {
  host = "host";
  find = λ _ n _. third_read n;
  amphora = λ _. none;
  raises = λ _. none;
}

abbrev empty_world : World
empty_world = record slow_world { find = λ _ _ _. none }

before_third : (i : ℕ) → i < 2 → third_read i ≡ none
before_third zero h = refl
before_third (suc zero) h = refl
before_third (suc (suc i)) h = absurd (omega arith)

create-Queues_example : Queues (("net1", none) ∷ []) (create slow_world listener "l1")
create-Queues_example =
    create-Queues slow_world listener "l1" 2 lb_new (λ _. refl) (omega arith) before_third refl
