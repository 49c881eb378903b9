-- ===== src/Policy.antt =====
-- octavia_f5/restclient/as3objects/policy_endpoint.py: L7 policies as an AS3 endpoint policy.
pub mod Supported
mod Examples
use octavia_f5_provider_driv.Base.{
  String, Bool, true, false, not, Option, none, some, List, [], ◌∷◌, ◌==◌, keep, map, Exception,
  Result, ok, err, policy_type_not_supported, compare_type_not_supported,
  policy_action_not_supported, and_then, for_all, if◌then◌else◌,
}
use octavia_f5_provider_driv.Octavia.{L7Rule, L7Policy, or_else}
use octavia_f5_provider_driv.Text.{f5label, f5remark, concat, join}
use octavia_f5_provider_driv.Names.{pool_name, policy_name}

-- An entry of COND_TYPE_MAP: `key` says where the condition's name comes from.
pub data KeyName : Type 0 where
  no_key rule_key : KeyName
  override_key : String → KeyName

pub record CondType : Type 0 where
  pub match_key : String
  pub type : String
  pub key : KeyName

-- COND_TYPE_MAP
cond_type : String → Option CondType
cond_type t =
    if t == "HOST_NAME"
    then some (record { match_key = "all"; type = "httpHeader"; key = override_key "Host" })
    else if t == "PATH"
    then some (record { match_key = "path"; type = "httpUri"; key = no_key })
    else if t == "FILE_TYPE"
    then some (record { match_key = "extension"; type = "httpUri"; key = no_key })
    else if t == "HEADER"
    then some (record { match_key = "all"; type = "httpHeader"; key = rule_key })
    else if t == "SSL_DN_FIELD"
    then some (record { match_key = "serverName"; type = "sslExtension"; key = no_key })
    else if t == "COOKIE"
    then some (record { match_key = "all"; type = "httpCookie"; key = rule_key })
    else none

-- COMPARE_TYPE_MAP and COMPARE_TYPE_INVERT_MAP: both operands of a compare type.
operands : String → Option (String × String)
operands t =
    if t == "STARTS_WITH"
    then some ("starts-with", "does-not-start-with")
    else if t == "ENDS_WITH"
    then some ("ends-with", "does-not-end-with")
    else if t == "CONTAINS"
    then some ("contains", "does-not-contain")
    else if t == "EQUAL_TO"
    then some ("equals", "does-not-equal")
    else none

pub record Condition : Type 0 where
  pub match_key : String
  pub operand : String
  pub value : String
  pub type : String
  pub name : Option String

name_of : L7Rule → KeyName → Option String
name_of r no_key = none
name_of r rule_key = some r.key
name_of r (override_key k) = some k

-- `_get_condition`, with what the maps hold for the rule.
condition_of : L7Rule → Option CondType → Option (String × String) → Result Condition
unfolding name_of
condition_of r none _ = err policy_type_not_supported
condition_of r (some c) none = err compare_type_not_supported
condition_of r (some c) (some (plain, inverted)) = ok (record {
  match_key = c.match_key;
  operand = if r.invert then inverted else plain;
  value = r.value;
  type = c.type;
  name = name_of r c.key;
})

pub get_condition : L7Rule → Result Condition
unfolding condition_of cond_type operands
get_condition r = condition_of r (cond_type r.type) (operands r.compare_type)

pub data Action : Type 0 where
  forward : (pool : String) → Action
  http_redirect : (location : String) → Action
  drop : Action

-- `_get_action`; the event is `request` each time.
pub get_action : L7Policy → Result Action
get_action p =
    if p.action == "REDIRECT_TO_POOL"
    then ok (forward (pool_name p.redirect_pool_id))
    else if p.action == "REDIRECT_TO_URL"
    then ok (http_redirect p.redirect_url)
    else if p.action == "REDIRECT_PREFIX"
    then ok (http_redirect (concat "tcl:" (concat p.redirect_prefix "[HTTP::uri]")))
    else if p.action == "REJECT"
    then ok drop
    else err policy_action_not_supported

pub record PolicyRule : Type 0 where
  pub name : String
  pub label : String
  pub remark : String
  pub conditions : List Condition
  pub action : Action

pub record EndpointPolicy : Type 0 where
  pub label : String
  pub remark : String
  pub rules : List PolicyRule
  pub strategy : String

-- The rule of one policy.
get_rule : L7Policy → Result PolicyRule
unfolding get_condition get_action
get_rule p = and_then (for_all get_condition p.l7rules) (λ conditions.
    and_then (get_action p) (λ action. ok (record {
      name = policy_name p.id;
      label = f5label (or_else p.name p.description);
      remark = f5remark (or_else p.description p.name);
      conditions = conditions;
      action = action;
    })))

-- ', '.join of the texts that are not empty
joined : List String → String
unfolding join
joined texts = join ", " (keep (λ t. not (t == "")) texts)

unfoldable pub get_endpoint_policy : List L7Policy → Result EndpointPolicy
unfolding get_rule joined
get_endpoint_policy ps =
    let wrapper_name = joined (map (λ (p : L7Policy). p.name) ps) in
    let wrapper_desc = joined (map (λ (p : L7Policy). p.description) ps) in
    and_then (for_all get_rule ps) (λ rules. ok (record {
      label = f5label (or_else wrapper_name wrapper_desc);
      remark = f5remark (or_else wrapper_desc wrapper_name);
      rules = rules;
      strategy = "first-match";
    }))
