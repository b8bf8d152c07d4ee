-- ===== src/Types.antt =====
-- common/types.hpp and common/error.hpp: the types that every component shares.
-- Strings are lists of bytes; `int` is ℤ, `uint32_t` is ℕ below 2 ^ 32.
pub mod Consumer
pub mod Names
use wifi_offload_rpi.Prelude.{Bool, List, Text, negsuc, ℕ, ℤ, ◌==◌}

pub data PathState : Type 0 where
  idle scanning connecting path_up path_degraded path_down : PathState

-- The value of the enumerator, as static_cast<uint32_t> gives it.
abbrev pub state_code : PathState → ℕ
state_code idle = 0
state_code scanning = 1
state_code connecting = 2
state_code path_up = 3
state_code path_degraded = 4
state_code path_down = 5

abbrev pub state_eq : PathState → PathState → Bool
state_eq a b = state_code a == state_code b

pub record RssiThresholds : Type 0 where
  pub connect_min : ℤ
  pub warn : ℤ
  pub drop : ℤ

-- The member initialisers: -70, -75 and -85 dBm.
abbrev pub default_rssi : RssiThresholds
default_rssi = record { connect_min = negsuc 69; warn = negsuc 74; drop = negsuc 84 }

pub record PathClassConfig : Type 0 where
  pub id : Text
  pub classid : ℕ
  pub cgroup_path : Text
  pub interfaces : List Text
  pub mptcp_enabled : Bool
  pub routing_table : ℕ
  pub mark : ℕ
  pub strict_isolation : Bool
  pub rssi : RssiThresholds

pub data ConfigError : Type 0 where
  file_not_found parse_error invalid_schema missing_field invalid_value : ConfigError

pub data RoutingError : Type 0 where
  cgroup_create_failed cgroup_write_failed iptables_error netlink_error : RoutingError
  already_exists not_found : RoutingError

pub data ApiError : Type 0 where
  socket_error invalid_message unknown_class_id registration_failed : ApiError

abbrev pub api_error_code : ApiError → ℕ
api_error_code socket_error = 0
api_error_code invalid_message = 1
api_error_code unknown_class_id = 2
api_error_code registration_failed = 3

pub data WpaEventType : Type 0 where
  connected disconnected signal_change terminating other : WpaEventType

pub record WpaEvent : Type 0 where
  pub type : WpaEventType
  pub raw : Text
  pub iface : Text
  pub rssi : ℤ
  pub avg_rssi : ℤ
