-- ===== src/Mptcp/Examples.antt =====
-- A kernel that keeps the endpoints' addresses in a list, and a class with two interfaces, one of
-- which has no address.
use wifi_offload_rpi.Prelude.{
  ==_self, All, Bool-cases, List, [], any, ap, arith, codes, false, if◌then◌else◌, inl, inr, refl,
  some, sym, text_eq, true, ℕ, ◌==◌, ◌∷◌, ◌≡◌, ◌⊎◌,
}
use wifi_offload_rpi.Types.{PathClassConfig, default_rssi}
use wifi_offload_rpi.Routing.Netlink.{Exchange, Netlink, accepted, eexist, outcome, refused}
use wifi_offload_rpi.Mptcp.{Command, Genl, add_addr, add_endpoints, flush_addrs, iface_addr4}
use wifi_offload_rpi.Mptcp.Endpoints.{EndpointLaws, IsServed, add_endpoints-All}

abbrev netlink : Netlink
netlink = record {
  Net = List ℕ;
  exchange = λ m net. (accepted, net);
  if_nametoindex = λ name net. 3;
}

abbrev answer : Command → List ℕ → Exchange × List ℕ
answer (add_addr addr ifindex) addrs =
    if any (λ a. a == addr) addrs then (refused eexist, addrs) else (accepted, addr ∷ addrs)
answer flush_addrs addrs = (accepted, [])

abbrev genl : Genl (List ℕ)
genl = record {
  get_family = λ net. (accepted, (some 30, net));
  command = λ family c net. answer c net;
  getifaddrs = λ net. some (
      record { name = codes "lo"; ipv4 = some 0x0100007F }
      ∷ record { name = codes "wlan0"; ipv4 = some 0x0201A8C0 }
      ∷ []);
}

-- The two ways in which the kernel answers an addition.
answer-cases :
    (addr ifindex : ℕ) (net net' : List ℕ) (e : Exchange)
    → answer (add_addr addr ifindex) net ≡ (e, net')
    → ((any (λ a. a == addr) net ≡ true) × (net' ≡ net)) ⊎ (net' ≡ addr ∷ net)
answer-cases addr ifindex net net' e h = elim (Bool-cases (any (λ a. a == addr) net)) [
  | inl there ↦
      let now : (refused eexist, net) ≡ (e, net') = rw (there, if◌then◌else◌) at h in
      inl (there, sym (ap (λ r. r.1) now))
  | inr missing ↦
      let now : (accepted, addr ∷ net) ≡ (e, net') = rw (missing, if◌then◌else◌) at h in
      inr (sym (ap (λ r. r.1) now))
]

answered :
    (addr ifindex : ℕ) (net net' : List ℕ) (e : Exchange)
    → answer (add_addr addr ifindex) net ≡ (e, net')
    → any (λ a. a == addr) net' ≡ true
answered addr ifindex net net' e h = elim (answer-cases addr ifindex net net' e h) [
  | inl (there, same) ↦ rw same there
  | inr new ↦ rw new (ground (arith, ==_self addr))
]

genl_laws : EndpointLaws genl
genl_laws = record {
  has_endpoint = λ addr net. any (λ a. a == addr) net;
  added = λ f a i net net' h. answered a i net net' accepted h;
  refused_existing = λ f a i net net' h. answered a i net net' (refused eexist) h;
  received_existing = λ f a i net net' h. answered a i net net' _ h;
  endpoints_kept = λ f a i o net h. elim (answer-cases a i net _ _ refl) [
    | inl (there, same) ↦ rw same h
    | inr new ↦ rw new (ground arith)
  ];
  addresses_kept = λ f a i net. refl;
}

abbrev multipath : PathClassConfig
multipath = record {
  id = codes "multipath";
  classid = 0x00100001;
  cgroup_path = codes "/sys/fs/cgroup/net_cls/multipath";
  interfaces = codes "wlan0" ∷ codes "eth9" ∷ [];
  mptcp_enabled = true;
  routing_table = 100;
  mark = 0x10;
  strict_isolation = false;
  rssi = default_rssi;
}

abbrev lte : PathClassConfig
lte = record multipath { id = codes "lte"; interfaces = codes "wwan0" ∷ []; mptcp_enabled = false }

add_endpoints-All_example :
    All (IsServed netlink genl genl_laws (0x0201A8C0 ∷ [])) (multipath ∷ lte ∷ [])
unfolding add_endpoints iface_addr4 outcome text_eq
add_endpoints-All_example =
    add_endpoints-All netlink genl genl_laws (multipath ∷ lte ∷ []) [] (0x0201A8C0 ∷ []) refl
