-- ===== src/Mptcp/Preserved.antt =====
-- What the messages of MptcpManager::addEndpoints (mptcp/mptcp_manager.cpp) leave alone.
use wifi_offload_rpi.Prelude.{Bool-cases, List, Text, [], inl, inr, ok, unexpected, ℕ, ◌==◌, ◌∷◌}
use wifi_offload_rpi.Types.{PathClassConfig}
use wifi_offload_rpi.Mptcp.{
  Genl, add_addr, add_endpoint, add_endpoints, add_endpoints_on, flush_addrs, iface_addr4,
  mptcp_ifaces, remove_endpoints, resolve_genl_family, send_add_addr,
}
use wifi_offload_rpi.Routing.Netlink.{Netlink, Result}

module _ (netlink : Netlink) (genl : Genl netlink.Net) (P : netlink.Net → Type 0) where
  open netlink use {Net}

  -- A predicate that no message of addEndpoints breaks.
  pub record IsUntouched : Type 0 where
    pub by_get_family : (net : Net) → P net → P (genl.get_family net).1.1
    pub by_add_addr :
        (family addr ifindex : ℕ) (net : Net)
        → P net
        → P (genl.command family (add_addr addr ifindex) net).1

  module _ (untouched : IsUntouched) where
    add_endpoint-preserves :
        (family : ℕ) (iface : Text) (net : Net)
        → P net
        → P (add_endpoint netlink genl family iface net).1
    unfolding add_endpoint send_add_addr
    add_endpoint-preserves family iface net h =
        elim (Bool-cases (iface_addr4 netlink genl iface net == 0)) [
          | inl none_there ↦ rw (add_endpoint, none_there) h
          | inr there ↦ elim (Bool-cases (netlink.if_nametoindex iface net == 0)) [
            | inl missing ↦ rw (add_endpoint, there, send_add_addr, missing) h
            | inr found ↦
                rw (add_endpoint, there, send_add_addr, found)
                  (untouched.by_add_addr family _ _ net h)
          ]
        ]

    add_endpoints_on-preserves :
        (family : ℕ) (ifaces : List Text) (net : Net)
        → P net
        → P (add_endpoints_on netlink genl family ifaces net).1
    unfolding add_endpoints_on
    add_endpoints_on-preserves family [] net h = h
    add_endpoints_on-preserves family (i ∷ rest) net h =
        let turn = add_endpoint-preserves family i net h in
        go (add_endpoint netlink genl family i net) turn
          (add_endpoints_on-preserves family rest (add_endpoint netlink genl family i net).1 turn)
      where
        go :
            (r : Result (Unit {0}) × Net)
            → P r.1
            → P (add_endpoints_on netlink genl family rest r.1).1
            → P
                (elim r.0 as (λ x. Result (Unit {0}) × Net) [
                  | unexpected e ↦ (unexpected e, r.1)
                  | ok u ↦ add_endpoints_on netlink genl family rest r.1
                ]).1
        go (ok u, n) turn later = later
        go (unexpected e, n) turn later = turn

    pub add_endpoints-preserves :
        (classes : List PathClassConfig) (net : Net)
        → P net
        → P (add_endpoints netlink genl classes net).1
    unfolding add_endpoints resolve_genl_family
    add_endpoints-preserves classes net h =
        go (resolve_genl_family netlink genl net).0 (untouched.by_get_family net h)
      where
        go :
            (r : Result ℕ)
            → P (genl.get_family net).1.1
            → P
                (elim r as (λ x. Result (Unit {0}) × Net) [
                  | unexpected e ↦ (unexpected e, (genl.get_family net).1.1)
                  | ok id ↦
                      add_endpoints_on netlink genl id
                        (mptcp_ifaces netlink genl classes)
                        (genl.get_family net).1.1
                ]).1
        go (ok id) kept = add_endpoints_on-preserves id _ _ kept
        go (unexpected e) kept = kept

  -- The same of removeEndpoints, whose messages are the query of the family and the flush.
  pub remove_endpoints-preserves :
      ((net : Net) → P net → P (genl.get_family net).1.1)
      → ((family : ℕ) (net : Net) → P net → P (genl.command family flush_addrs net).1)
      → (net : Net) → P net
      → P (remove_endpoints netlink genl net)
  unfolding remove_endpoints resolve_genl_family
  remove_endpoints-preserves by_get_family by_flush net h =
      go (resolve_genl_family netlink genl net).0 (by_get_family net h)
    where
      go :
          (r : Result ℕ)
          → P (genl.get_family net).1.1
          → P (elim r as (λ x. Net) [
            | unexpected e ↦ (genl.get_family net).1.1
            | ok id ↦ (genl.command id flush_addrs (genl.get_family net).1.1).1
          ])
      go (ok id) kept = by_flush id _ kept
      go (unexpected e) kept = kept
