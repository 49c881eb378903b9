-- ===== src/Text.antt =====
-- Text operations of the program: octavia_f5/restclient/as3types.py (labels and remarks for the
-- device), and Python's `upper` and one-character `replace`, on texts as lists of characters.
pub mod Labels
mod Examples
use Prim.Native.Char.{Char, code}
use Prim.Native.String.{◌++◌ as ◌+++◌}
use mathlib.Core.Option
use octavia_f5_provider_driv.Base.{
  ℕ, zero, suc, ◌-◌, String, Option, none, some, [], ◌∷◌, Bool, true, false, not, ◌&&◌, ◌||◌, List,
  ◌==◌, leb, eqb, if◌then◌else◌,
}

-- ch in chars
abbrev pub has_char : String → Char → Bool
has_char String.[] c = false
has_char (String.◌∷◌ d s) c = eqb (code d) (code c) || has_char s c

abbrev pub keep_chars : (Char → Bool) → String → String
keep_chars p String.[] = String.[]
keep_chars p (String.◌∷◌ c s) = let rest = keep_chars p s in if p c then String.◌∷◌ c rest else rest

-- text[:n]
abbrev pub take_chars : ℕ → String → String
take_chars zero s = String.[]
take_chars (suc n) String.[] = String.[]
take_chars (suc n) (String.◌∷◌ c s) = String.◌∷◌ c (take_chars n s)

-- text[n:]
unfoldable pub drop_chars : ℕ → String → String
drop_chars zero s = s
drop_chars (suc n) String.[] = String.[]
drop_chars (suc n) (String.◌∷◌ c s) = drop_chars n s

-- len(text)
abbrev pub size : String → ℕ
size String.[] = 0
size (String.◌∷◌ c s) = suc (size s)

-- Python's `string.printable`: the ASCII characters from space to tilde, and five kinds of space.
abbrev pub is_printable : Char → Bool
is_printable c = leb 32 (code c) && leb (code c) 126 || leb 9 (code c) && leb (code c) 13

abbrev pub remark_forbidden : String
remark_forbidden = "\"\\"

abbrev pub label_forbidden : String
label_forbidden = "#&*<>?[\\]`\""

abbrev pub remark_char : Char → Bool
remark_char c = is_printable c && not (has_char remark_forbidden c)

abbrev pub label_char : Char → Bool
label_char c = is_printable c && not (has_char label_forbidden c)

unfoldable pub f5remark : String → String
f5remark remark = if remark == "" then "" else take_chars 64 (keep_chars remark_char remark)

unfoldable pub f5label : String → String
f5label label = if label == "" then "" else take_chars 64 (keep_chars label_char label)

translate : Char → String → String → Char
translate c String.[] to = c
translate c from String.[] = c
translate c (String.◌∷◌ a from) (String.◌∷◌ b to) =
    if eqb (code c) (code a) then b else translate c from to

-- text.upper(), on ASCII
unfoldable pub upper : String → String
unfolding translate
upper String.[] = String.[]
upper (String.◌∷◌ c s) =
    String.◌∷◌ (translate c "abcdefghijklmnopqrstuvwxyz" "ABCDEFGHIJKLMNOPQRSTUVWXYZ") (upper s)

-- text.lower(), on ASCII
unfoldable pub lower : String → String
unfolding translate
lower String.[] = String.[]
lower (String.◌∷◌ c s) =
    String.◌∷◌ (translate c "ABCDEFGHIJKLMNOPQRSTUVWXYZ" "abcdefghijklmnopqrstuvwxyz") (lower s)

-- text.replace(old, new), for texts of one character
unfoldable pub replace_char : Char → Char → String → String
replace_char old new String.[] = String.[]
replace_char old new (String.◌∷◌ c s) =
    String.◌∷◌ (if eqb (code c) (code old) then new else c) (replace_char old new s)

-- text.find(c): the first place of a character.
unfoldable pub find_char : Char → String → Option ℕ
find_char c String.[] = none
find_char c (String.◌∷◌ d s) =
    if eqb (code d) (code c) then some 0 else Option.map suc (find_char c s)

-- text.startswith(start)
unfoldable pub starts_with : String → String → Bool
starts_with String.[] s = true
starts_with (String.◌∷◌ c t) String.[] = false
starts_with (String.◌∷◌ c t) (String.◌∷◌ d s) =
    let rest = starts_with t s in eqb (code c) (code d) && rest

-- part in text
unfoldable pub has_part : String → String → Bool
unfolding starts_with
has_part part String.[] = starts_with part String.[]
has_part part (String.◌∷◌ c s) = starts_with part (String.◌∷◌ c s) || has_part part s

-- text.replace(part, ''): what is left when every part is taken out, from the left; the number is
-- that of the characters still to skip.
unfoldable pub drop_parts : String → ℕ → String → String
unfolding starts_with
drop_parts part k String.[] = String.[]
drop_parts part (suc k) (String.◌∷◌ c s) = drop_parts part k s
drop_parts part zero (String.◌∷◌ c s) = elim (starts_with part (String.◌∷◌ c s)) [
  | true ↦ drop_parts part (size part - 1) s
  | false ↦ String.◌∷◌ c (drop_parts part zero s)
]

-- text[:text.find(part)], which without the part is the text without its last character.
unfoldable pub before_part : String → String → String
unfolding starts_with
before_part part String.[] = String.[]
before_part part (String.◌∷◌ c String.[]) = String.[]
before_part part (String.◌∷◌ c (String.◌∷◌ d s)) =
    elim (starts_with part (String.◌∷◌ c (String.◌∷◌ d s))) [
      | true ↦ String.[]
      | false ↦ String.◌∷◌ c (before_part part (String.◌∷◌ d s))
    ]

-- text.split(c)
abbrev pub push_char : Char → List String → List String
push_char d [] = String.◌∷◌ d String.[] ∷ []
push_char d (s ∷ r) = String.◌∷◌ d s ∷ r

unfoldable pub split_char : Char → String → List String
split_char c String.[] = "" ∷ []
split_char c (String.◌∷◌ d s) =
    let rest = split_char c s in if eqb (code d) (code c) then "" ∷ rest else push_char d rest

-- "{}{}".format(a, b)
abbrev pub concat : String → String → String
concat = ◌+++◌

-- sep.join(texts)
unfoldable pub join : String → List String → String
join sep [] = ""
join sep (s ∷ []) = s
join sep (s ∷ t ∷ r) = concat s (concat sep (join sep (t ∷ r)))
