-- ===== src/Routing/Netlink.antt =====
-- routing/routing_policy_manager.cpp, sendNetlinkFwmarkRule, sendRouteMsg and what calls them, over
-- libmnl: one exchange sends a message and gives the kernel's answer.
pub mod IpRules
pub mod Removal
pub mod Routes
use wifi_offload_rpi.Prelude.{
  Bool, Expected, List, Option, Text, [], false, if◌then◌else◌, none, not, ok, some, true,
  unexpected, ℕ, ◌==◌, ◌∷◌,
}
use wifi_offload_rpi.Types.{PathClassConfig, RoutingError, netlink_error}

abbrev pub Result {ℓ} : Type ℓ → Type ℓ
Result A = Expected RoutingError A

-- NEW or DEL, of a rule or a route.
pub data Op : Type 0 where
  add_op delete_op : Op

pub data Flag : Type 0 where
  create_flag excl_flag replace_flag : Flag

pub data Errno : Type 0 where
  eexist enoent eother : Errno

-- Up to which point an exchange came; mnl_cb_run refuses with the errno of the kernel's answer.
pub data Exchange : Type 0 where
  open_failed bind_failed send_failed : Exchange
  receive_failed : Errno → Exchange
  refused : Errno → Exchange
  accepted : Exchange

-- Beside the flags NLM_F_REQUEST and NLM_F_ACK, which every message has.
pub data Message : Type 0 where
  -- fwmark, table, priority
  rule_message : Op → List Flag → ℕ → ℕ → ℕ → Message
  -- gateway, output interface, table
  route_message : Op → List Flag → Option ℕ → ℕ → ℕ → Message

-- libmnl and the kernel behind it.
pub record Netlink : Type 1 where
  pub Net : Type 0
  pub exchange : Message → Net → Exchange × Net
  pub if_nametoindex : Text → Net → ℕ

-- An existing rule that is added, or a missing one that is deleted, is no error.
is_settled : Op → Errno → Bool
is_settled add_op eexist = true
is_settled delete_op enoent = true
is_settled op e = false

unfoldable pub outcome : Op → Exchange → Result (Unit {0})
unfolding is_settled
outcome op accepted = ok tt
outcome op (receive_failed e) = if is_settled op e then ok tt else unexpected netlink_error
outcome op (refused e) = if is_settled op e then ok tt else unexpected netlink_error
outcome op open_failed = unexpected netlink_error
outcome op bind_failed = unexpected netlink_error
outcome op send_failed = unexpected netlink_error

abbrev pub ip_rule_priority : ℕ
ip_rule_priority = 32765

-- The message that adds a rule, and fails if the rule exists.
abbrev pub new_rule : ℕ → ℕ → Message
new_rule mark table = rule_message add_op (create_flag ∷ excl_flag ∷ []) mark table ip_rule_priority

module _ (netlink : Netlink) where
  open netlink use {Net, exchange, if_nametoindex}

  unfoldable pub send_netlink_fwmark_rule : Op → List Flag → ℕ → ℕ → Net → Result (Unit {0}) × Net
  send_netlink_fwmark_rule op extra_flags fwmark table net =
      let (answer, net') =
        exchange (rule_message op extra_flags fwmark table ip_rule_priority) net in
      (outcome op answer, net')

  pub send_route_msg : ℕ → ℕ → ℕ → Op → List Flag → Net → Result (Unit {0}) × Net
  send_route_msg gw_addr ifindex table op extra_flags net =
      let gateway = if not (gw_addr == 0) then some gw_addr else none in
      let (answer, net') = exchange (route_message op extra_flags gateway ifindex table) net in
      (outcome op answer, net')

  -- The first error ends the loop.
  unfoldable pub add_ip_rules : List PathClassConfig → Net → Result (Unit {0}) × Net
  unfolding send_netlink_fwmark_rule
  add_ip_rules [] net = (ok tt, net)
  add_ip_rules (cls ∷ rest) net =
      let (result, net') =
        send_netlink_fwmark_rule add_op (create_flag ∷ excl_flag ∷ []) cls.mark cls.routing_table
          net in
      elim result [ unexpected e ↦ (unexpected e, net') | ok u ↦ add_ip_rules rest net' ]

  -- Errors are logged only.
  pub remove_ip_rules : List PathClassConfig → Net → Net
  unfolding send_netlink_fwmark_rule
  remove_ip_rules [] net = net
  remove_ip_rules (cls ∷ rest) net =
      let (result, net') = send_netlink_fwmark_rule delete_op [] cls.mark cls.routing_table net in
      remove_ip_rules rest net'

  unfoldable pub add_default_route : Text → ℕ → ℕ → Net → Result (Unit {0}) × Net
  unfolding send_route_msg
  add_default_route iface gw_addr routing_table net =
      if if_nametoindex iface net == 0
      then (unexpected netlink_error, net)
      else send_route_msg gw_addr (if_nametoindex iface net) routing_table add_op
          (create_flag ∷ replace_flag ∷ []) net

  -- An interface that is gone counts as success.
  unfoldable pub remove_default_route : Text → ℕ → Net → Result (Unit {0}) × Net
  unfolding send_route_msg
  remove_default_route iface routing_table net =
      if if_nametoindex iface net == 0
      then (ok tt, net)
      else send_route_msg 0 (if_nametoindex iface net) routing_table delete_op [] net
