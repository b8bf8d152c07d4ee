-- ===== src/Routing.antt =====
-- routing/routing_policy_manager.cpp: the kernel policy of the path classes.
pub mod Entry
pub mod Iptables
pub mod Netlink
pub mod Gateway
pub mod Cgroups
pub mod Cleanup
pub mod DropRules
pub mod Examples
