-- ===== src/Mptcp.antt =====
-- mptcp/mptcp_manager.cpp: the MPTCP endpoints, over generic netlink. `Genl` is libmnl and the kernel
-- behind it, on the same state as `Netlink`.
pub mod Preserved
pub mod Endpoints
mod Examples
use wifi_offload_rpi.Prelude.{
  List, Option, Text, [], if◌then◌else◌, none, ok, some, text_eq, unexpected, ℕ, ◌++◌, ◌==◌, ◌∷◌,
}
use wifi_offload_rpi.Types.{PathClassConfig, netlink_error}
use wifi_offload_rpi.Routing.Netlink.{Exchange, Netlink, Result, accepted, add_op, outcome}

pub data Command : Type 0 where
  -- the address, and for an addition the interface; an addition has the subflow flag
  add_addr : ℕ → ℕ → Command
  flush_addrs : Command

pub record IfAddr : Type 0 where
  pub name : Text
  pub ipv4 : Option ℕ

pub record Genl (Net : Type 0) : Type 0 where
  -- The exchange of CTRL_CMD_GETFAMILY, with the family id if the answer has one.
  pub get_family : Net → Exchange × (Option ℕ × Net)
  pub command : ℕ → Command → Net → Exchange × Net
  -- `none`: getifaddrs failed.
  pub getifaddrs : Net → Option (List IfAddr)

module _ (netlink : Netlink) (genl : Genl netlink.Net) where
  open netlink use {Net, if_nametoindex}
  open genl use {get_family, command, getifaddrs}

  addr_of : List IfAddr → Text → ℕ
  addr_of [] ifname = 0
  addr_of (a ∷ rest) ifname = elim a.ipv4 [
    | none ↦ addr_of rest ifname
    | some addr ↦ if text_eq a.name ifname then addr else addr_of rest ifname
  ]

  unfoldable pub iface_addr4 : Text → Net → ℕ
  unfolding addr_of
  iface_addr4 ifname net = elim (getifaddrs net) [ none ↦ 0 | some addrs ↦ addr_of addrs ifname ]

  family_of : Exchange → Option ℕ → Result ℕ
  family_of accepted (some id) = ok id
  family_of e id = unexpected netlink_error

  resolve_genl_family : Net → Result ℕ × Net
  unfolding family_of
  resolve_genl_family net = let (answer, (id, net')) = get_family net in (family_of answer id, net')

  -- MPTCP_PM_CMD_ADD_ADDR, the one command that addEndpoints sends.
  send_add_addr : ℕ → Text → ℕ → Net → Result (Unit {0}) × Net
  send_add_addr family iface addr4 net =
      if if_nametoindex iface net == 0
      then (unexpected netlink_error, net)
      else (let (answer, net') = command family (add_addr addr4 (if_nametoindex iface net)) net in
          (outcome add_op answer, net'))

  -- One interface; without an IPv4 address it is skipped.
  add_endpoint : ℕ → Text → Net → Result (Unit {0}) × Net
  unfolding iface_addr4 send_add_addr
  add_endpoint family iface net =
      if iface_addr4 iface net == 0
      then (ok tt, net)
      else send_add_addr family iface (iface_addr4 iface net) net

  -- The loop over the interfaces of the classes with MPTCP; the first error ends it.
  add_endpoints_on : ℕ → List Text → Net → Result (Unit {0}) × Net
  unfolding add_endpoint
  add_endpoints_on family [] net = (ok tt, net)
  add_endpoints_on family (iface ∷ rest) net =
      let (result, net') = add_endpoint family iface net in
      elim result [ unexpected e ↦ (unexpected e, net') | ok u ↦ add_endpoints_on family rest net' ]

  mptcp_ifaces : List PathClassConfig → List Text
  mptcp_ifaces [] = []
  mptcp_ifaces (cls ∷ rest) =
      (if cls.mptcp_enabled then cls.interfaces else []) ++ mptcp_ifaces rest

  unfoldable pub add_endpoints : List PathClassConfig → Net → Result (Unit {0}) × Net
  unfolding resolve_genl_family add_endpoints_on mptcp_ifaces
  add_endpoints classes net =
      let (family, net') = resolve_genl_family net in
      elim family [
        | unexpected e ↦ (unexpected e, net')
        | ok id ↦ add_endpoints_on id (mptcp_ifaces classes) net'
      ]

  pub remove_endpoints : Net → Net
  unfolding resolve_genl_family
  remove_endpoints net =
      let (family, net') = resolve_genl_family net in
      elim family [ unexpected e ↦ net' | ok id ↦ (command id flush_addrs net').1 ]
