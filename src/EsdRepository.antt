-- ===== src/EsdRepository.antt =====
-- octavia_f5/utils/esd_repo.py: which tags of the ESD files reach the services.
pub mod Verified
mod Examples
use octavia_f5_provider_driv.Base.{
  String, Bool, true, false, Option, none, some, List, [], ◌∷◌, Dict, lookup, update, Exception,
  input_file_error, other, Result, ok, err, and_then, if◌then◌else◌,
}

-- `str` or `list`, as the tables of tags name them.
pub data ValueType : Type 0 where
  str list : ValueType

-- A value that json.load returns.
pub data Value : Type 0 where
  a_text : String → Value
  a_list : List String → Value
  another : Value

abbrev pub is_instance : Value → ValueType → Bool
is_instance (a_text s) str = true
is_instance (a_list l) list = true
is_instance _ _ = false

abbrev pub valid_esd_tags : Dict ValueType
valid_esd_tags =
    ("lbaas_fastl4", str)
    ∷ ("lbaas_ctcp", str)
    ∷ ("lbaas_stcp", str)
    ∷ ("lbaas_cudp", str)
    ∷ ("lbaas_http", str)
    ∷ ("lbaas_one_connect", str)
    ∷ ("lbaas_http_compression", str)
    ∷ ("lbaas_cssl_profile", str)
    ∷ ("lbaas_sssl_profile", str)
    ∷ ("lbaas_irule", list)
    ∷ ("lbaas_policy", list)
    ∷ ("lbaas_persist", str)
    ∷ ("lbaas_fallback_persist", str)
    ∷ []

abbrev pub is_some : Option ValueType → Bool
is_some none = false
is_some (some t) = true

abbrev pub is_valid_tag : String → Bool
is_valid_tag tag = is_some (lookup tag valid_esd_tags)

pub verify_tag : String → Result (Unit {0})
verify_tag tag = if is_valid_tag tag then ok tt else err input_file_error

-- The value against the type in the definition of its tag; None['value_type'] is a TypeError.
pub verify_type : Value → Option ValueType → Result (Unit {0})
verify_type value none = err other
verify_type value (some t) = if is_instance value t then ok tt else err input_file_error

pub verify_value : String → Value → Result (Unit {0})
unfolding verify_type
verify_value tag value = verify_type value (lookup tag valid_esd_tags)

-- Whether the tag is added; only InputFileError is caught.
pub is_added : Result (Unit {0}) → Result Bool
is_added (ok _) = ok true
is_added (err input_file_error) = ok false
is_added (err e) = err e

-- The loop over the tags, whose names are all different.
pub verify_esd : Dict Value → Result (Dict Value)
unfolding verify_tag verify_value is_added
verify_esd [] = ok []
verify_esd ((tag, value) ∷ esd) =
    and_then (is_added (and_then (verify_tag tag) (λ _. verify_value tag value))) (λ added.
      and_then (verify_esd esd) (λ valid. ok (if added then (tag, value) ∷ valid else valid)))

-- An ESD without valid tags ends the loop.
pub add_esd : String → Dict Value → Result (Dict (Dict Value)) → Result (Dict (Dict Value))
add_esd name [] further = ok []
add_esd name (tag ∷ tags) further = and_then further (λ esds. ok ((name, tag ∷ tags) ∷ esds))

pub verify_esd_dict : Dict (Dict Value) → Result (Dict (Dict Value))
unfolding verify_esd add_esd
verify_esd_dict [] = ok []
verify_esd_dict ((name, esd) ∷ esds) =
    let further = verify_esd_dict esds in
    and_then (verify_esd esd) (λ valid. add_esd name valid further)

-- The files in the order of `glob`, `none` for one that is not JSON.
pub read_json : Dict (Dict Value) → List (Option (Dict (Dict Value))) → Result (Dict (Dict Value))
read_json esds [] = ok esds
read_json esds (none ∷ files) = err input_file_error
read_json esds (some file ∷ files) = read_json (update esds file) files

pub process_esd : List (Option (Dict (Dict Value))) → Result (Dict (Dict Value))
unfolding read_json verify_esd_dict
process_esd files = and_then (read_json [] files) (λ esds. verify_esd_dict esds)

pub get_esd : Dict (Dict Value) → String → Option (Dict Value)
get_esd esds name = lookup name esds
