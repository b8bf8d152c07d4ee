-- ===== src/Mptcp/Endpoints.antt =====
-- Which endpoints the kernel has after MptcpManager::addEndpoints (mptcp/mptcp_manager.cpp).
use wifi_offload_rpi.Prelude.{
  ==_sound, All, Bool, Bool-cases, List, Option, Option-cases, Text, [], ap, false, find_if,
  if◌then◌else◌, inl, inr, none, ok, refl, some, sym, text_eq, true, unexpected, ℕ, ◌&&◌, ◌++◌,
  ◌==◌, ◌∙◌, ◌∷◌, ◌≡◌, ◌⊎◌,
}
use wifi_offload_rpi.Types.{PathClassConfig}
use wifi_offload_rpi.Mptcp.{
  Genl, IfAddr, add_addr, add_endpoint, add_endpoints, add_endpoints_on, addr_of, iface_addr4,
  mptcp_ifaces, resolve_genl_family, send_add_addr,
}
use wifi_offload_rpi.Routing.Netlink.{
  Exchange, Netlink, Result, accepted, add_op, bind_failed, eexist, enoent, eother, outcome,
  receive_failed, refused, send_failed,
}
use mathlib.Core.Path.{subst}

-- How the kernel answers MPTCP_PM_CMD_ADD_ADDR: it has the address afterwards if it accepts, it had
-- it before if it says EEXIST, and no address is lost. The addresses of the interfaces stay.
pub record EndpointLaws {Net : Type 0} (genl : Genl Net) : Type 0 where
  pub has_endpoint : ℕ → Net → Bool
  pub added :
      (family addr ifindex : ℕ) (net net' : Net)
      → genl.command family (add_addr addr ifindex) net ≡ (accepted, net')
      → has_endpoint addr net' ≡ true
  pub refused_existing :
      (family addr ifindex : ℕ) (net net' : Net)
      → genl.command family (add_addr addr ifindex) net ≡ (refused eexist, net')
      → has_endpoint addr net' ≡ true
  pub received_existing :
      (family addr ifindex : ℕ) (net net' : Net)
      → genl.command family (add_addr addr ifindex) net ≡ (receive_failed eexist, net')
      → has_endpoint addr net' ≡ true
  pub endpoints_kept :
      (family addr ifindex other_addr : ℕ) (net : Net)
      → has_endpoint other_addr net ≡ true
      → has_endpoint other_addr (genl.command family (add_addr addr ifindex) net).1 ≡ true
  pub addresses_kept :
      (family addr ifindex : ℕ) (net : Net)
      → genl.getifaddrs (genl.command family (add_addr addr ifindex) net).1 ≡ genl.getifaddrs net

abbrev is_some : Option ℕ → Bool
is_some none = false
is_some (some n) = true

-- The first entry of an interface that has an IPv4 address.
abbrev is_ipv4_of : Text → IfAddr → Bool
is_ipv4_of iface a = is_some a.ipv4 && text_eq a.name iface

abbrev ipv4_in : Option IfAddr → Option ℕ
ipv4_in none = none
ipv4_in (some a) = a.ipv4

-- The IPv4 address of an interface in what getifaddrs gives.
abbrev pub ipv4_of : Text → Option (List IfAddr) → Option ℕ
ipv4_of iface none = none
ipv4_of iface (some addrs) = ipv4_in (find_if (is_ipv4_of iface) addrs)

abbrev or_zero : Option ℕ → ℕ
or_zero none = 0
or_zero (some n) = n

module _ (netlink : Netlink) (genl : Genl netlink.Net) (laws : EndpointLaws genl) where
  open netlink use {Net}

  -- The same by what the code reads.
  abbrev HasEndpoint : Net → Text → Type 0
  HasEndpoint net iface =
      (iface_addr4 netlink genl iface net ≡ 0)
      ⊎ (laws.has_endpoint (iface_addr4 netlink genl iface net) net ≡ true)

  answered :
      (family addr ifindex : ℕ) (net net' : Net) (answer : Exchange)
      → genl.command family (add_addr addr ifindex) net ≡ (answer, net')
      → outcome add_op answer ≡ ok tt
      → laws.has_endpoint addr net' ≡ true
  unfolding outcome
  answered f a i net net' accepted e o = laws.added f a i net net' e
  answered f a i net net' (refused eexist) e o = laws.refused_existing f a i net net' e
  answered f a i net net' (receive_failed eexist) e o = laws.received_existing f a i net net' e
  answered f a i net net' (refused enoent) e o = cc
  answered f a i net net' (refused eother) e o = cc
  answered f a i net net' (receive_failed enoent) e o = cc
  answered f a i net net' (receive_failed eother) e o = cc
  answered f a i net net' wifi_offload_rpi.Routing.Netlink.open_failed e o = cc
  answered f a i net net' wifi_offload_rpi.Routing.Netlink.bind_failed e o = cc
  answered f a i net net' wifi_offload_rpi.Routing.Netlink.send_failed e o = cc

  -- What one interface's turn does to the kernel.
  record IsTurn (iface : Text) (net : Net) (r : Result (Unit {0}) × Net) : Type 0 where
    pub kept : (addr : ℕ) → laws.has_endpoint addr net ≡ true → laws.has_endpoint addr r.1 ≡ true
    pub same : genl.getifaddrs r.1 ≡ genl.getifaddrs net
    pub done : r.0 ≡ ok tt → HasEndpoint r.1 iface

  iface_addr4-same :
      (iface : Text) (net net' : Net)
      → genl.getifaddrs net' ≡ genl.getifaddrs net
      → iface_addr4 netlink genl iface net' ≡ iface_addr4 netlink genl iface net
  unfolding iface_addr4
  iface_addr4-same iface net net' e = rw (iface_addr4, e) refl

  send_add_addr-IsTurn :
      (family : ℕ) (iface : Text) (net : Net)
      → IsTurn iface net
          (send_add_addr netlink genl family iface (iface_addr4 netlink genl iface net) net)
  unfolding send_add_addr
  send_add_addr-IsTurn family iface net =
      elim (Bool-cases (netlink.if_nametoindex iface net == 0)) [
        | inl missing ↦
            rw (send_add_addr, missing) (record { kept = λ a h. h; same = refl; done = λ e. cc })
        | inr found ↦
            (let addr = iface_addr4 netlink genl iface net in
              let index = netlink.if_nametoindex iface net in
              let after = (genl.command family (add_addr addr index) net).1 in
              let unmoved = laws.addresses_kept family addr index net in
              rw (send_add_addr, found)
                (record {
                  kept = λ a h. laws.endpoints_kept family addr index a net h;
                  same = unmoved;
                  done = λ e. inr (
                      subst (λ a. laws.has_endpoint a after ≡ true)
                        (sym (iface_addr4-same iface net after unmoved))
                        (answered family addr index net after _ refl e));
                }))
      ]

  add_endpoint-IsTurn :
      (family : ℕ) (iface : Text) (net : Net)
      → IsTurn iface net (add_endpoint netlink genl family iface net)
  unfolding add_endpoint
  add_endpoint-IsTurn family iface net =
      elim (Bool-cases (iface_addr4 netlink genl iface net == 0)) [
        | inl none_there ↦
            rw (add_endpoint, none_there)
              (record { kept = λ a h. h; same = refl; done = λ e. inl (==_sound _ _ none_there) })
        | inr there ↦ rw (add_endpoint, there) (send_add_addr-IsTurn family iface net)
      ]

  add_endpoints_on-inverse :
      (family : ℕ) (i : Text) (rest : List Text) (net net' : Net)
      → add_endpoints_on netlink genl family (i ∷ rest) net ≡ (ok tt, net')
      → (n : Net) × IsTurn i net (ok tt, n)
        × (add_endpoints_on netlink genl family rest n ≡ (ok tt, net'))
  unfolding add_endpoints_on
  add_endpoints_on-inverse family i rest net net' e =
      go (add_endpoint netlink genl family i net) (add_endpoint-IsTurn family i net) e
    where
      go :
          (r : Result (Unit {0}) × Net)
          → IsTurn i net r
          → (elim r.0 [
            | unexpected x ↦ (unexpected x, r.1)
            | ok u ↦ add_endpoints_on netlink genl family rest r.1
          ])
            ≡ (ok tt, net')
          → (n : Net) × IsTurn i net (ok tt, n)
            × (add_endpoints_on netlink genl family rest n ≡ (ok tt, net'))
      go (ok u, n) t later = (n, t, later)
      go (unexpected x, n) t later = cc

  HasEndpoint-kept :
      (iface turn : Text) (net : Net) (r : Result (Unit {0}) × Net)
      → IsTurn turn net r
      → HasEndpoint net iface
      → HasEndpoint r.1 iface
  HasEndpoint-kept iface turn net r t (inl e) = inl (iface_addr4-same iface net r.1 t.same ∙ e)
  HasEndpoint-kept iface turn net r t (inr e) =
      inr (rw (iface_addr4-same iface net r.1 t.same) (t.kept _ e))

  -- A loop that ends without an error loses no endpoint.
  add_endpoints_on-kept :
      (family : ℕ) (ifaces : List Text) (iface : Text) (net net' : Net)
      → add_endpoints_on netlink genl family ifaces net ≡ (ok tt, net')
      → HasEndpoint net iface
      → HasEndpoint net' iface
  unfolding add_endpoints_on
  add_endpoints_on-kept family [] iface net net' e h =
      subst (λ n. HasEndpoint n iface) (ap (λ r. r.1) e) h
  add_endpoints_on-kept family (i ∷ rest) iface net net' e h =
      let (n, turn, later) = add_endpoints_on-inverse family i rest net net' e in
      add_endpoints_on-kept family rest iface n net' later
        (HasEndpoint-kept iface i net (ok tt, n) turn h)

  add_endpoints_on-All :
      (family : ℕ) (ifaces : List Text) (net net' : Net)
      → add_endpoints_on netlink genl family ifaces net ≡ (ok tt, net')
      → All (HasEndpoint net') ifaces
  unfolding add_endpoints_on
  add_endpoints_on-All family [] net net' e = tt
  add_endpoints_on-All family (i ∷ rest) net net' e =
      let (n, turn, later) = add_endpoints_on-inverse family i rest net net' e in
      (
        add_endpoints_on-kept family rest i n net' later (turn.done refl),
        add_endpoints_on-All family rest n net' later,
      )

  -- An interface has no IPv4 address that getifaddrs gives, or the kernel has an endpoint with it.
  abbrev IsServedAt : Net → Option ℕ → Type 0
  IsServedAt net none = Unit
  IsServedAt net (some addr) = (addr ≡ 0) ⊎ (laws.has_endpoint addr net ≡ true)

  abbrev pub IsServedOn : Net → Text → Type 0
  IsServedOn net iface = IsServedAt net (ipv4_of iface (genl.getifaddrs net))

  -- A class without MPTCP, or with all its interfaces served.
  abbrev pub IsServed : Net → PathClassConfig → Type 0
  IsServed net cls = (cls.mptcp_enabled ≡ false) ⊎ All (IsServedOn net) cls.interfaces

  addr_of-ipv4_of :
      (iface : Text) (addrs : List IfAddr)
      → addr_of netlink genl addrs iface ≡ or_zero (ipv4_of iface (some addrs))
  unfolding addr_of
  addr_of-ipv4_of iface [] = refl
  addr_of-ipv4_of iface (a ∷ rest) = go a.ipv4 refl (addr_of-ipv4_of iface rest)
    where
      go :
          (o : Option ℕ)
          → a.ipv4 ≡ o
          → addr_of netlink genl rest iface ≡ or_zero (ipv4_of iface (some rest))
          → addr_of netlink genl (a ∷ rest) iface ≡ or_zero (ipv4_of iface (some (a ∷ rest)))
      go none e later = rw (addr_of, e) later
      go (some n) e later = elim (Bool-cases (text_eq a.name iface)) [
        | inl hit ↦ rw (addr_of, e, hit) refl
        | inr miss ↦ rw (addr_of, e, miss) later
      ]

  iface_addr4-ipv4_of :
      (iface : Text) (net : Net)
      → iface_addr4 netlink genl iface net ≡ or_zero (ipv4_of iface (genl.getifaddrs net))
  unfolding iface_addr4
  iface_addr4-ipv4_of iface net = elim (Option-cases (genl.getifaddrs net)) [
    | inl failed ↦ rw (iface_addr4, failed) refl
    | inr (addrs, given) ↦ rw (iface_addr4, given) (addr_of-ipv4_of iface addrs)
  ]

  HasEndpoint-IsServedAt :
      (net : Net) (iface : Text) (o : Option ℕ)
      → iface_addr4 netlink genl iface net ≡ or_zero o
      → HasEndpoint net iface
      → IsServedAt net o
  HasEndpoint-IsServedAt net iface none e h = tt
  HasEndpoint-IsServedAt net iface (some addr) e (inl z) = inl (sym e ∙ z)
  HasEndpoint-IsServedAt net iface (some addr) e (inr z) = inr (rw e at z)

  All-IsServedOn :
      (net : Net) (ifaces : List Text) → All (HasEndpoint net) ifaces → All (IsServedOn net) ifaces
  All-IsServedOn net [] h = tt
  All-IsServedOn net (i ∷ rest) h =
      (HasEndpoint-IsServedAt net i _ (iface_addr4-ipv4_of i net) h.0, All-IsServedOn net rest h.1)

  All-append :
      (net : Net) (xs ys : List Text)
      → All (HasEndpoint net) (xs ++ ys)
      → All (HasEndpoint net) xs × All (HasEndpoint net) ys
  All-append net [] ys h = (tt, h)
  All-append net (x ∷ xs) ys h = let (hx, hy) = All-append net xs ys h.1 in ((h.0, hx), hy)

  mptcp_ifaces-All :
      (classes : List PathClassConfig) (net : Net)
      → All (HasEndpoint net) (mptcp_ifaces netlink genl classes)
      → All (IsServed net) classes
  unfolding mptcp_ifaces
  mptcp_ifaces-All [] net h = tt
  mptcp_ifaces-All (c ∷ cs) net h =
      let (mine, others) = All-append net (if c.mptcp_enabled then c.interfaces else []) _ h in
      (
        elim (Bool-cases c.mptcp_enabled) [
          | inl on ↦ inr (All-IsServedOn net c.interfaces (rw (on, if◌then◌else◌) at mine))
          | inr off ↦ inl off
        ],
        mptcp_ifaces-All cs net others,
      )

  -- On a kernel with these laws: if addEndpoints succeeds, then for every interface of every class
  -- with MPTCP, the kernel has an endpoint with the first IPv4 address that getifaddrs gives for it,
  -- whether it was new or there before, unless there is no such address or it is 0.0.0.0.
  pub add_endpoints-All :
      (classes : List PathClassConfig) (net net' : Net)
      → add_endpoints netlink genl classes net ≡ (ok tt, net')
      → All (IsServed net') classes
  unfolding add_endpoints
  add_endpoints-All classes net net' e = go (resolve_genl_family netlink genl net) e
    where
      go :
          (r : Result ℕ × Net)
          → (elim r.0 [
            | unexpected x ↦ (unexpected x, r.1)
            | ok id ↦ add_endpoints_on netlink genl id (mptcp_ifaces netlink genl classes) r.1
          ])
            ≡ (ok tt, net')
          → All (IsServed net') classes
      go (ok id, n) later = mptcp_ifaces-All classes net' (add_endpoints_on-All id _ n net' later)
      go (unexpected x, n) later = cc
