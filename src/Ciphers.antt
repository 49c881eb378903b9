-- ===== src/Ciphers.antt =====
-- octavia_f5/restclient/as3objects/cipher.py: the cipher suites of a listener or pool.
pub mod Filtered
mod Examples
use octavia_f5_provider_driv.Base.{
  String, Bool, Option, none, some, List, [], ◌∷◌, ◌++◌, ◌==◌, mem, Result, ok, err, value_error,
  and_then, if◌then◌else◌,
}
use octavia_f5_provider_driv.Text.{concat, lower, split_char}

-- get_cipher_rule_name, get_cipher_group_name
unfoldable pub get_cipher_rule_name : String → String → String
unfolding lower
get_cipher_rule_name object_id object_type =
    concat "cipher_rule_" (concat (lower object_type) (concat "_" object_id))

unfoldable pub get_cipher_group_name : String → String → String
unfolding lower
get_cipher_group_name object_id object_type =
    concat "cipher_group_" (concat (lower object_type) (concat "_" object_id))

-- list(set(names))
unfoldable pub distinct : List String → List String
distinct [] = []
distinct (s ∷ r) = let rest = distinct r in if mem s rest then rest else s ∷ rest

-- names.remove(c), which takes out the first one, or raises ValueError.
unfoldable pub remove_first : String → List String → Result (List String)
remove_first c [] = err value_error
remove_first c (s ∷ r) =
    let rest = remove_first c r in if s == c then ok r else and_then rest (λ kept. ok (s ∷ kept))

unfoldable pub remove_each : List String → List String → Result (List String)
unfolding remove_first
remove_each [] suites = ok suites
remove_each (c ∷ cs) suites = and_then (remove_first c suites) (λ kept. remove_each cs kept)

-- CIPHERS_HTTP2
abbrev pub ciphers_http2 : List String
ciphers_http2 = "ECDHE-RSA-AES128-GCM-SHA256" ∷ []

pub append_required : List String → List String → List String
append_required [] suites = suites
append_required (c ∷ cs) suites =
    append_required cs (if mem c suites then suites else suites ++ c ∷ [])

-- octavia.common.validate, a library of the program: the cipher suites of a colon-separated text
-- that are on the prohibit list, and those that are not on the allow list.
pub record Validate : Type 0 where
  pub check_cipher_prohibit_list : String → List String
  pub check_cipher_allow_list : String → List String

-- The group's name, and its rule: the names of both, and the suites of the rule.
pub record RuleAndGroup : Type 0 where
  pub group_name : String
  pub rule_name : String
  pub cipher_suites : List String

module _ (v : Validate) where
  unfoldable pub rejected_cipher_suites : String → List String
  unfolding distinct
  rejected_cipher_suites suites =
      distinct (v.check_cipher_prohibit_list suites ++ v.check_cipher_allow_list suites)

  unfoldable pub filter_cipher_suites : String → Result (List String)
  unfolding rejected_cipher_suites remove_each append_required split_char
  filter_cipher_suites suites =
      and_then (remove_each (rejected_cipher_suites suites) (split_char ":" suites))
        (λ kept. ok (append_required ciphers_http2 kept))

  unfoldable pub get_cipher_rule_and_group : String → String → String → Result RuleAndGroup
  unfolding filter_cipher_suites get_cipher_rule_name get_cipher_group_name
  get_cipher_rule_and_group ciphers parent_obj parent_id =
      and_then (filter_cipher_suites ciphers) (λ suites. ok (record {
        group_name = get_cipher_group_name parent_id parent_obj;
        rule_name = get_cipher_rule_name parent_id parent_obj;
        cipher_suites = suites;
      }))
