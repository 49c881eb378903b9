-- ===== src/Text/Labels.antt =====
-- What labels and remarks look like.
use Prim.Native.Char.{Char}
use octavia_f5_provider_driv.Base.{
  ℕ, zero, suc, ◌≤◌, String, Bool, true, ◌≡◌, refl, arith, ◌==◌, Bool-cases, inl, inr, ap, sym,
  eq_iff,
}
use octavia_f5_provider_driv.Text.{keep_chars, take_chars, size, label_char, f5label}

abbrev pub AllChars : (Char → Bool) → String → Type 0
AllChars p String.[] = Unit
AllChars p (String.◌∷◌ c s) = (p c ≡ true) × AllChars p s

take_chars-size : (n : ℕ) (s : String) → size (take_chars n s) ≤ n
take_chars-size zero s = omega arith
take_chars-size (suc n) String.[] = omega arith
take_chars-size (suc n) (String.◌∷◌ c s) = omega (arith, take_chars-size n s)

take_chars-AllChars :
    (p : Char → Bool) (n : ℕ) (s : String) → AllChars p s → AllChars p (take_chars n s)
take_chars-AllChars p zero s h = tt
take_chars-AllChars p (suc n) String.[] h = tt
take_chars-AllChars p (suc n) (String.◌∷◌ c s) h = (h.0, take_chars-AllChars p n s h.1)

keep_chars-AllChars : (p : Char → Bool) (s : String) → AllChars p (keep_chars p s)
keep_chars-AllChars p String.[] = tt
keep_chars-AllChars p (String.◌∷◌ c s) = elim (Bool-cases (p c)) [
  | inl h ↦ rw h (h, keep_chars-AllChars p s)
  | inr h ↦ rw h (keep_chars-AllChars p s)
]

keep_chars_self : (p : Char → Bool) (s : String) → AllChars p s → keep_chars p s ≡ s
keep_chars_self p String.[] h = refl
keep_chars_self p (String.◌∷◌ c s) h =
    rw h.0 (ap (λ (t : String). String.◌∷◌ c t) (keep_chars_self p s h.1))

take_chars_self : (n : ℕ) (s : String) → size s ≤ n → take_chars n s ≡ s
take_chars_self zero String.[] h = refl
take_chars_self zero (String.◌∷◌ c s) h = absurd (omega arith)
take_chars_self (suc n) String.[] h = refl
take_chars_self (suc n) (String.◌∷◌ c s) h =
    ap (λ (t : String). String.◌∷◌ c t) (take_chars_self n s (omega arith))

abbrev pub IsClean : (Char → Bool) → String → Type 0
IsClean p s = (size s ≤ 64) × AllChars p s

cleaned-IsClean : (p : Char → Bool) (s : String) → IsClean p (take_chars 64 (keep_chars p s))
cleaned-IsClean p s = (
  take_chars-size 64 (keep_chars p s),
  take_chars-AllChars p 64 (keep_chars p s) (keep_chars-AllChars p s),
)

-- A label has at most 64 characters, all of them printable and none of them forbidden, and such a
-- text is its own label.
f5label-IsClean :
    (s : String) → IsClean label_char (f5label s) × (IsClean label_char s → f5label s ≡ s)
unfolding f5label
f5label-IsClean s = elim (Bool-cases (s == "")) [
  | inl e ↦ rw e ((omega arith, tt), λ _. sym ((eq_iff s "").0 e))
  | inr ne ↦ rw ne (
    cleaned-IsClean label_char s,
    λ h. rw (keep_chars_self label_char s h.1) (take_chars_self 64 s h.0),
  )
]
