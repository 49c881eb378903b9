-- ===== src/Ciphers/Examples.antt =====
-- Two suites, one of them prohibited.
use octavia_f5_provider_driv.Base.{String, ◌≡◌, refl, not, ◌&&◌, ◌||◌, List, [], ◌∷◌, mem, ok}
use octavia_f5_provider_driv.Text.{split_char}
use octavia_f5_provider_driv.Ciphers.{
  Validate, ciphers_http2, rejected_cipher_suites, filter_cipher_suites, distinct, remove_first,
  remove_each,
}
use octavia_f5_provider_driv.Ciphers.Filtered.{filter_cipher_suites-mem}

abbrev prohibit_rc4 : Validate
prohibit_rc4 = record {
  check_cipher_prohibit_list = λ suites. "RC4" ∷ [];
  check_cipher_allow_list = λ suites. "RC4" ∷ [];
}

filter_cipher_suites-mem_example :
    (r : List String) × (filter_cipher_suites prohibit_rc4 "AES:RC4" ≡ ok r)
    × ((x : String)
        → mem x r ≡ (
            mem x (split_char ":" "AES:RC4") && not (mem x ("RC4" ∷ []) || mem x ("RC4" ∷ []))
            || mem x ciphers_http2))
unfolding rejected_cipher_suites split_char distinct
filter_cipher_suites-mem_example = filter_cipher_suites-mem prohibit_rc4 "AES:RC4" (refl, refl)

-- A suite that the text repeats is taken out once, and stays.
repeated : remove_each ("RC4" ∷ []) ("RC4" ∷ "RC4" ∷ []) ≡ ok ("RC4" ∷ [])
unfolding remove_each remove_first
repeated = refl
