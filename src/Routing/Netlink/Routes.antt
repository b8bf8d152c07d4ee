-- ===== src/Routing/Netlink/Routes.antt =====
-- RoutingPolicyManager::addDefaultRoute and removeDefaultRoute (routing/routing_policy_manager.cpp)
-- against the default routes of the kernel's tables.
use wifi_offload_rpi.Prelude.{
  ==_sound, Bool-cases, Option, Text, [], false, inl, inr, none, refl, some, ℕ, ◌==◌, ◌∷◌, ◌≡◌, ◌≢◌,
  ◌⊎◌,
}
use wifi_offload_rpi.Routing.Netlink.{
  Message, Netlink, add_default_route, add_op, create_flag, delete_op, remove_default_route,
  replace_flag, route_message, send_route_msg,
}

abbrev pub new_route : Option ℕ → ℕ → ℕ → Message
new_route gateway ifindex table =
    route_message add_op (create_flag ∷ replace_flag ∷ []) gateway ifindex table

abbrev pub old_route : ℕ → ℕ → Message
old_route ifindex table = route_message delete_op [] none ifindex table

-- A kernel behind a route socket that works: a table has at most one default route, here by its
-- interface; an addition replaces it or changes nothing, a deletion through the same interface
-- removes it, and neither concerns another table. A route does not outlive its interface.
pub record RouteLaws (netlink : Netlink) : Type 0 where
  pub default_of : ℕ → netlink.Net → Option Text
  pub added :
      (gateway : Option ℕ) (iface : Text) (table : ℕ) (net : netlink.Net)
      → (netlink.if_nametoindex iface net == 0) ≡ false
      → let net' =
          (netlink.exchange (new_route gateway (netlink.if_nametoindex iface net) table) net).1 in
        (default_of table net' ≡ some iface) ⊎ (default_of table net' ≡ default_of table net)
  pub add_others :
      (gateway : Option ℕ) (ifindex table table' : ℕ) (net : netlink.Net)
      → table ≢ table'
      → default_of table' (netlink.exchange (new_route gateway ifindex table) net).1
        ≡ default_of table' net
  pub deleted :
      (iface : Text) (table : ℕ) (net : netlink.Net)
      → default_of table net ≡ some iface
      → default_of table
          (netlink.exchange (old_route (netlink.if_nametoindex iface net) table) net).1
        ≡ none
  pub missing :
      (ifindex table : ℕ) (net : netlink.Net)
      → default_of table net ≡ none
      → default_of table (netlink.exchange (old_route ifindex table) net).1 ≡ none
  pub delete_others :
      (ifindex table table' : ℕ) (net : netlink.Net)
      → table ≢ table'
      → default_of table' (netlink.exchange (old_route ifindex table) net).1 ≡ default_of table' net
  pub gone :
      (iface : Text) (table : ℕ) (net : netlink.Net)
      → netlink.if_nametoindex iface net ≡ 0
      → default_of table net ≢ some iface

module _ (netlink : Netlink) (laws : RouteLaws netlink) where
  open netlink use {Net, if_nametoindex}

  pub add_default_route-default_of :
      (iface : Text) (gw table : ℕ) (net : Net)
      → let net' = (add_default_route netlink iface gw table net).1 in
        (laws.default_of table net' ≡ some iface)
        ⊎ (laws.default_of table net' ≡ laws.default_of table net)
  unfolding add_default_route send_route_msg
  add_default_route-default_of iface gw table net =
      elim (Bool-cases (if_nametoindex iface net == 0)) [
        | inl missing ↦ rw (missing, add_default_route) (inr refl)
        | inr there ↦ rw (there, add_default_route) (laws.added _ iface table net there)
      ]

  pub add_default_route-others :
      (iface : Text) (gw table table' : ℕ) (net : Net)
      → table ≢ table'
      → laws.default_of table' (add_default_route netlink iface gw table net).1
        ≡ laws.default_of table' net
  unfolding add_default_route send_route_msg
  add_default_route-others iface gw table table' net n =
      elim (Bool-cases (if_nametoindex iface net == 0)) [
        | inl missing ↦ rw (missing, add_default_route) refl
        | inr there ↦ rw (there, add_default_route) (laws.add_others _ _ table table' net n)
      ]

  -- The route through the interface is gone, or there was none.
  pub remove_default_route-default_of :
      (iface : Text) (table : ℕ) (net : Net)
      → (laws.default_of table net ≡ none) ⊎ (laws.default_of table net ≡ some iface)
      → laws.default_of table (remove_default_route netlink iface table net).1 ≡ none
  unfolding remove_default_route send_route_msg
  remove_default_route-default_of iface table net h =
      elim (Bool-cases (if_nametoindex iface net == 0)) [
        | inl absent ↦
            rw (absent, remove_default_route)
              (elim h [
                | inl e ↦ e
                | inr e ↦ absurd (laws.gone iface table net (==_sound _ _ absent) e)
              ])
        | inr there ↦
            rw (there, remove_default_route)
              (elim h [
                | inl e ↦ laws.missing _ table net e
                | inr e ↦ laws.deleted iface table net e
              ])
      ]

  pub remove_default_route-others :
      (iface : Text) (table table' : ℕ) (net : Net)
      → table ≢ table'
      → laws.default_of table' (remove_default_route netlink iface table net).1
        ≡ laws.default_of table' net
  unfolding remove_default_route send_route_msg
  remove_default_route-others iface table table' net n =
      elim (Bool-cases (if_nametoindex iface net == 0)) [
        | inl absent ↦ rw (absent, remove_default_route) refl
        | inr there ↦ rw (there, remove_default_route) (laws.delete_others _ table table' net n)
      ]
