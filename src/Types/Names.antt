-- ===== src/Types/Names.antt =====
-- common/types.hpp and common/error.hpp: the overloads of toString. The value
-- after each switch, "Unknown", is for no enumerator.
use wifi_offload_rpi.Prelude.{Text, arith, refl, codes, ◌≡◌}
use wifi_offload_rpi.Types.Consumer.{
  MptcpError, WpaError, attach_failed, connect_failed, endpoint_not_found, recv_error, timeout,
  unsupported_kernel,
}
use wifi_offload_rpi.Types.{
  ApiError, ConfigError, PathState, RoutingError, already_exists, cgroup_create_failed,
  cgroup_write_failed, connecting, file_not_found, idle, invalid_message, invalid_schema,
  invalid_value, iptables_error, missing_field, netlink_error, not_found, parse_error,
  path_degraded, path_down, path_up, registration_failed, scanning, socket_error, unknown_class_id,
}

-- One name for the overloads.
pub record Named (E : Type 0) : Type 0 where
  pub name : E → Text

abbrev pub to_string : {E : Type 0} ⦃n : Named E⦄ → E → Text
to_string ⦃n⦄ e = n.name e

path_state_name : PathState → Text
path_state_name idle = codes "Idle"
path_state_name scanning = codes "Scanning"
path_state_name connecting = codes "Connecting"
path_state_name path_up = codes "PathUp"
path_state_name path_degraded = codes "PathDegraded"
path_state_name path_down = codes "PathDown"

config_error_name : ConfigError → Text
config_error_name file_not_found = codes "FileNotFound"
config_error_name parse_error = codes "ParseError"
config_error_name invalid_schema = codes "InvalidSchema"
config_error_name missing_field = codes "MissingField"
config_error_name invalid_value = codes "InvalidValue"

routing_error_name : RoutingError → Text
routing_error_name cgroup_create_failed = codes "CgroupCreateFailed"
routing_error_name cgroup_write_failed = codes "CgroupWriteFailed"
routing_error_name iptables_error = codes "IptablesError"
routing_error_name netlink_error = codes "NetlinkError"
routing_error_name already_exists = codes "AlreadyExists"
routing_error_name not_found = codes "NotFound"

mptcp_error_name : MptcpError → Text
mptcp_error_name MptcpError.netlink_error = codes "NetlinkError"
mptcp_error_name endpoint_not_found = codes "EndpointNotFound"
mptcp_error_name unsupported_kernel = codes "UnsupportedKernel"

wpa_error_name : WpaError → Text
wpa_error_name connect_failed = codes "ConnectFailed"
wpa_error_name attach_failed = codes "AttachFailed"
wpa_error_name recv_error = codes "RecvError"
wpa_error_name timeout = codes "Timeout"

api_error_name : ApiError → Text
api_error_name socket_error = codes "SocketError"
api_error_name invalid_message = codes "InvalidMessage"
api_error_name unknown_class_id = codes "UnknownClassId"
api_error_name registration_failed = codes "RegistrationFailed"

instance unfoldable pub path_state_named : Named PathState
unfolding path_state_name
path_state_named = record { name = path_state_name }

instance unfoldable pub config_error_named : Named ConfigError
unfolding config_error_name
config_error_named = record { name = config_error_name }

instance unfoldable pub routing_error_named : Named RoutingError
unfolding routing_error_name
routing_error_named = record { name = routing_error_name }

instance unfoldable pub mptcp_error_named : Named MptcpError
unfolding mptcp_error_name
mptcp_error_named = record { name = mptcp_error_name }

instance unfoldable pub wpa_error_named : Named WpaError
unfolding wpa_error_name
wpa_error_named = record { name = wpa_error_name }

instance unfoldable pub api_error_named : Named ApiError
unfolding api_error_name
api_error_named = record { name = api_error_name }

-- The log tells the values of a type apart.
abbrev IsLegible : {E : Type 0} → Named E → Type 0
IsLegible {E} n = (a b : E) → n.name a ≡ n.name b → a ≡ b

path_state_named-IsLegible : IsLegible path_state_named
unfolding path_state_named
path_state_named-IsLegible a b e = ground arith

config_error_named-IsLegible : IsLegible config_error_named
unfolding config_error_named
config_error_named-IsLegible a b e = ground arith

routing_error_named-IsLegible : IsLegible routing_error_named
unfolding routing_error_named
routing_error_named-IsLegible a b e = ground arith

mptcp_error_named-IsLegible : IsLegible mptcp_error_named
unfolding mptcp_error_named
mptcp_error_named-IsLegible a b e = ground arith

wpa_error_named-IsLegible : IsLegible wpa_error_named
unfolding wpa_error_named
wpa_error_named-IsLegible a b e = ground arith

api_error_named-IsLegible : IsLegible api_error_named
unfolding api_error_named
api_error_named-IsLegible a b e = ground arith

-- Two errors of different types have one name.
same_name : to_string RoutingError.netlink_error ≡ to_string MptcpError.netlink_error
unfolding routing_error_named mptcp_error_named
same_name = refl
