-- ===== src/Wpa.antt =====
-- wpa/wpa_monitor.hpp and wpa_monitor.cpp: the monitor of wpa_supplicant's events.
pub mod Parse
pub mod Monitor
pub mod Shutdown
mod Examples
