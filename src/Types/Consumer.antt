-- ===== src/Types/Consumer.antt =====
-- common/types.hpp and common/error.hpp: the types that the daemon declares and does not use, of the
-- consumers' view of a path and of errors that other types stand for.
use wifi_offload_rpi.Prelude.{ℕ, ℤ, Text}

pub data PathEvent : Type 0 where
  path_up path_degraded path_down : PathEvent

pub record PathInfo : Type 0 where
  pub event : PathEvent
  pub iface : Text
  pub rssi_dbm : ℤ
  pub est_bandwidth_kbps : ℕ

pub data MptcpError : Type 0 where
  netlink_error endpoint_not_found unsupported_kernel : MptcpError

pub data WpaError : Type 0 where
  connect_failed attach_failed recv_error timeout : WpaError
