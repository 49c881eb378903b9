-- ===== src/Names.antt =====
-- The names that AS3 objects get: the prefixes of octavia_f5/common/constants.py, and the `get_name`
-- functions of octavia_f5/restclient/as3objects.
use Prim.Native.String.{◌++◌}
use octavia_f5_provider_driv.Base.{String}
use octavia_f5_provider_driv.Text.{replace_char}

abbrev pub prefix_network : String
prefix_network = "net_"

-- pool.get_name
abbrev pub pool_name : String → String
pool_name pool_id = "pool_" ++ pool_id

-- pool_member.get_name
abbrev pub member_name : String → String
member_name member_id = "member_" ++ member_id

-- monitor.get_name
abbrev pub monitor_name : String → String
monitor_name healthmonitor_id = "hm_" ++ healthmonitor_id

-- application.get_name
abbrev pub application_name : String → String
application_name loadbalancer_id = "lb_" ++ loadbalancer_id

-- service.get_name
abbrev pub listener_name : String → String
listener_name listener_id = "listener_" ++ listener_id

-- service.get_data_group_name
abbrev pub data_group_name : String → String
data_group_name listener_id = listener_name listener_id ++ "_allowed_cidrs"

-- tls.get_listener_name, tls.get_pool_name
abbrev pub tls_listener_name : String → String
tls_listener_name listener_id = "tls_listener_" ++ listener_id

abbrev pub tls_pool_name : String → String
tls_pool_name pool_id = "tls_pool_" ++ pool_id

-- policy_endpoint.get_name, policy_endpoint.get_wrapper_name
abbrev pub policy_name : String → String
policy_name policy_id = "l7policy_" ++ policy_id

abbrev pub wrapper_policy_name : String → String
wrapper_policy_name listener_id = "wrapper_policy_" ++ listener_id

-- tenant.get_name
unfoldable pub tenant_name : String → String
unfolding replace_char
tenant_name network_id = prefix_network ++ replace_char "-" "_" network_id
