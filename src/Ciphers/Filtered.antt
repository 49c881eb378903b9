-- ===== src/Ciphers/Filtered.antt =====
-- Which cipher suites are left.
use octavia_f5_provider_driv.Base.{
  String, Bool, true, false, not, ◌&&◌, ◌||◌, ◌≡◌, refl, ◌∙◌, List, [], ◌∷◌, ◌++◌, ◌==◌, mem, all,
  arith, eq_iff, any-append, Bool-cases, inl, inr, Result, ok,
}
use mathlib.Core.Bool.{false≢true}
use octavia_f5_provider_driv.Text.{split_char}
use octavia_f5_provider_driv.Ciphers.{
  distinct, remove_first, remove_each, append_required, ciphers_http2, Validate,
  rejected_cipher_suites, filter_cipher_suites,
}

-- No text stands twice.
abbrev pub is_distinct : List String → Bool
is_distinct [] = true
is_distinct (s ∷ r) = not (mem s r) && is_distinct r

mem-distinct : (c : String) (names : List String) → mem c (distinct names) ≡ mem c names
unfolding distinct
mem-distinct c [] = refl
mem-distinct c (s ∷ r) = elim (Bool-cases (mem s (distinct r))) [
  | inl there ↦ rw there (ground (arith, mem-distinct c r, eq_iff s c, mem-distinct s r))
  | inr new ↦ rw new (ground (arith, mem-distinct c r))
]

distinct-is_distinct : (names : List String) → is_distinct (distinct names) ≡ true
unfolding distinct
distinct-is_distinct [] = refl
distinct-is_distinct (s ∷ r) = ground (arith, distinct-is_distinct r)

-- A list without repetition that is left when the suites that `gone` holds are taken out.
pub record Left (xs : List String) (gone : String → Bool) (r : Result (List String)) : Type 0 where
  pub kept : List String
  pub returns : r ≡ ok kept
  pub once : is_distinct kept ≡ true
  pub rest : (x : String) → mem x kept ≡ (mem x xs && not (gone x))

mem-absent : (c x : String) (r : List String) → mem c r ≡ false → (x == c) ≡ true → mem x r ≡ false
mem-absent c x r h e = rw ((eq_iff x c).0 e) h

head_gone :
    (c x : String) (r : List String)
    → mem c r ≡ false
    → mem x r ≡ ((c == x || mem x r) && not (x == c))
head_gone c x r h = elim (Bool-cases (x == c)) [
  | inl e ↦ rw (e, mem-absent c x r h e) (ground arith)
  | inr ne ↦ rw ne (ground (arith, eq_iff c x, eq_iff x c))
]

kept_head :
    (s c x : String) (r kept : List String)
    → (s == c) ≡ false
    → mem x kept ≡ (mem x r && not (x == c))
    → (s == x || mem x kept) ≡ ((s == x || mem x r) && not (x == c))
kept_head s c x r kept ne h = rw h (ground (arith, eq_iff s x, eq_iff x c, eq_iff s c))

remove_first-Left :
    (c : String) (suites : List String)
    → is_distinct suites ≡ true
    → mem c suites ≡ true
    → Left suites (λ x. x == c) (remove_first c suites)
unfolding remove_first
remove_first-Left c [] h m = absurd (false≢true m)
remove_first-Left c (s ∷ r) h m = elim (Bool-cases (s == c)) [
  | inl e ↦ record {
    kept = r;
    returns = rw e;
    once = ground arith;
    rest = λ x. rw ((eq_iff s c).0 e) (head_gone c x r (rw (← (eq_iff s c).0 e) (ground arith)));
  }
  | inr ne ↦
      let later = remove_first-Left c r (ground arith) (ground arith) in
      record {
        kept = s ∷ later.kept;
        returns = rw (ne, later.returns);
        once = rw (later.rest s) (ground arith);
        rest = λ x. kept_head s c x r later.kept ne (later.rest x);
      }
]

-- Every suite of the first list stands in the second.
abbrev pub subset : List String → List String → Bool
subset cs suites = all cs (λ c. mem c suites)

subset_rest :
    (c : String) (cs suites kept : List String)
    → mem c cs ≡ false
    → subset cs suites ≡ true
    → ((x : String) → mem x kept ≡ (mem x suites && not (x == c)))
    → subset cs kept ≡ true
subset_rest c [] suites kept a h e = refl
subset_rest c (d ∷ cs) suites kept a h e =
    rw (e d)
      (ground (arith, eq_iff d c, subset_rest c cs suites kept (ground arith) (ground arith) e))

gone_twice :
    (c x : String) (cs suites : List String)
    → ((mem x suites && not (x == c)) && not (mem x cs))
      ≡ (mem x suites && not (c == x || mem x cs))
gone_twice c x cs suites = ground (arith, eq_iff c x, eq_iff x c)

remove_each-Left :
    (cs suites : List String)
    → is_distinct suites ≡ true
    → is_distinct cs ≡ true
    → subset cs suites ≡ true
    → Left suites (λ x. mem x cs) (remove_each cs suites)
unfolding remove_each
remove_each-Left [] suites h d s = record {
  kept = suites;
  returns = refl;
  once = h;
  rest = λ x. ground arith;
}
remove_each-Left (c ∷ cs) suites h d s =
    let first = remove_first-Left c suites h (ground arith) in
    let later =
      remove_each-Left cs first.kept first.once (ground arith)
        (subset_rest c cs suites first.kept (ground arith) (ground arith) first.rest) in
    record {
      kept = later.kept;
      returns = rw (first.returns, later.returns);
      once = later.once;
      rest = λ x. rw (later.rest x, first.rest x) (gone_twice c x cs suites);
    }

mem-append_required :
    (x : String) (cs suites : List String)
    → mem x (append_required cs suites) ≡ (mem x suites || mem x cs)
unfolding append_required
mem-append_required x [] suites = ground arith
mem-append_required x (c ∷ cs) suites = elim (Bool-cases (mem c suites)) [
  | inl there ↦
      rw there
        (mem-append_required x cs suites ∙ ground (arith, eq_iff c x, there_too x c suites there))
  | inr new ↦ rw new (
      mem-append_required x cs (suites ++ c ∷ [])
      ∙ ground (arith, any-append suites (c ∷ []) (λ n. n == x)))
]
  where
    there_too :
        (x c : String) (suites : List String)
        → mem c suites ≡ true
        → (c == x) ≡ true
        → mem x suites ≡ true
    there_too x c suites h e = rw (← (eq_iff c x).0 e) h

module _ (v : Validate) (suites : String) where
  -- Each suite that the library rejects is one of the text's, and the text repeats none.
  abbrev pub IsClear : Type 0
  IsClear =
      (is_distinct (split_char ":" suites) ≡ true)
      × (subset (rejected_cipher_suites v suites) (split_char ":" suites) ≡ true)

  -- For a text that repeats no suite, filtering returns, and a suite is left exactly if the text has
  -- it and neither list rejects it, or if it is the one that HTTP/2 requires. The latter is there
  -- for every listener and pool, also where a list rejects it.
  pub filter_cipher_suites-mem :
      IsClear
      → (r : List String) × (filter_cipher_suites v suites ≡ ok r)
        × ((x : String)
            → mem x r ≡ (
                mem x (split_char ":" suites)
                  && not (
                      mem x (v.check_cipher_prohibit_list suites)
                      || mem x (v.check_cipher_allow_list suites))
                || mem x ciphers_http2))
  unfolding filter_cipher_suites rejected_cipher_suites
  filter_cipher_suites-mem h =
      let bad = v.check_cipher_prohibit_list suites ++ v.check_cipher_allow_list suites in
      let left =
        remove_each-Left (distinct bad) (split_char ":" suites) h.0 (distinct-is_distinct bad)
          h.1 in
      (
        append_required ciphers_http2 left.kept,
        rw left.returns,
        λ x. rw (
          mem-append_required x ciphers_http2 left.kept,
          left.rest x,
          mem-distinct x bad,
          any-append (v.check_cipher_prohibit_list suites) (v.check_cipher_allow_list suites)
              (λ n. n == x),
        ),
      )
