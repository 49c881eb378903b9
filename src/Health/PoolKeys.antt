-- ===== src/Health/PoolKeys.antt =====
-- The keys of the pools in a heartbeat.
use Prim.Native.Char.{Char}
use Prim.Native.String.{◌++◌}
use text.Mathlib.TextLemmas.{nil-append, cons-append}
use octavia_f5_provider_driv.Base.{String, false, ◌≡◌, refl, none, some, arith}
use octavia_f5_provider_driv.Text.{has_char}
use octavia_f5_provider_driv.Health.{before_last, pool_id_of}

before_last-none : (c : Char) (s : String) → has_char s c ≡ false → before_last c s ≡ none
unfolding before_last
before_last-none c String.[] h = refl
before_last-none c (String.◌∷◌ d s) h = ground (arith, before_last-none c s)

before_last-cons :
    (c d : Char) (s : String) (p : String)
    → before_last c s ≡ some p
    → before_last c (String.◌∷◌ d s) ≡ some (String.◌∷◌ d p)
unfolding before_last
before_last-cons c d s p h = rw h

before_last-append :
    (c : Char) (s t : String) → has_char t c ≡ false → before_last c (s ++ String.◌∷◌ c t) ≡ some s
unfolding before_last
before_last-append c String.[] t h =
    rw (nil-append (String.◌∷◌ c t)) (ground (arith, before_last-none c t h))
before_last-append c (String.◌∷◌ d s) t h =
    rw (cons-append d s (String.◌∷◌ c t))
      (before_last-cons c d (s ++ String.◌∷◌ c t) s (before_last-append c s t h))

-- A key of the form `pool:listener`, with no colon in the listener's id, is read as the pool, and
-- a key with no colon as itself.
pool_id_of_key :
    (pool listener : String)
    → has_char listener ":" ≡ false
    → (pool_id_of (pool ++ String.◌∷◌ ":" listener) ≡ pool) × (pool_id_of listener ≡ listener)
unfolding pool_id_of
pool_id_of_key pool listener h = (
  rw (before_last-append ":" pool listener h, pool_id_of),
  rw (before_last-none ":" listener h, pool_id_of),
)
