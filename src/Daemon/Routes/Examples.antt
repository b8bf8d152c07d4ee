-- ===== src/Daemon/Routes/Examples.antt =====
-- A kernel with one interface, and a path that comes up and goes down.
use wifi_offload_rpi.Prelude.{
  ==_self, ==_sound, All, Bool, Bool-cases, List, Option, Text, [], ap, arith, codes, false,
  if◌then◌else◌, inl, inr, map, none, refl, some, sym, text_eq, text_eq_sound, true, ℕ, ◌==◌, ◌∙◌,
  ◌∷◌, ◌≡◌, ◌≢◌,
}
use wifi_offload_rpi.Types.{WpaEvent, disconnected, path_down, path_up, terminating}
use wifi_offload_rpi.Daemon.Routes.Leak.{route_leak, state_at}
use wifi_offload_rpi.Fsm.{PathStateFsm, new_fsm, on_wpa_event}
use wifi_offload_rpi.Daemon.{
  Happening, World, callbacks_of, deliver, delivers, hangs_up, new_fsms, new_world, run,
}
use wifi_offload_rpi.Fsm.Routes.{IsAlive}
use wifi_offload_rpi.Mptcp.{Genl, add_endpoints}
use wifi_offload_rpi.Routing.Netlink.{
  Exchange, Message, Netlink, accepted, add_default_route, add_op, delete_op, enoent, outcome,
  refused, remove_default_route, route_message, rule_message,
}
use wifi_offload_rpi.Daemon.Routes.Steered.{IsSteered, run-new_fsms-IsSteered}
use wifi_offload_rpi.Config.Hex.{digit_in, is_hex_start, read_digits, stoul_hex}
use wifi_offload_rpi.Routing.Gateway.{
  gateway_of, htonl, lines, query_gateway_for_iface, query_lines, row_of,
}
use wifi_offload_rpi.Routing.Netlink.Routes.{RouteLaws}
use wifi_offload_rpi.Daemon.Examples.{around, multipath, multipath-IsLoaded, up}
use wifi_offload_rpi.Daemon.RouteCalls.{EndpointsApart}

-- Which tables have a default route through wlan0.
abbrev pub Routes : Type 0
Routes = ℕ → Bool

abbrev pub with_route : ℕ → Bool → Routes → Routes
with_route table present net = λ t. if t == table then present else net t

abbrev pub routed : Message → Routes → Exchange × Routes
routed (rule_message op flags mark table priority) net = (accepted, net)
routed (route_message add_op flags gateway ifindex table) net =
    (accepted, with_route table true net)
routed (route_message delete_op flags gateway ifindex table) net =
    (if net table then accepted else refused enoent, with_route table false net)

abbrev pub wlan_only : Netlink
wlan_only = record {
  Net = Routes;
  exchange = routed;
  if_nametoindex = λ name net. if text_eq name (codes "wlan0") then 3 else 0;
}

abbrev pub wlan_route : Bool → Option Text
wlan_route present = if present then some (codes "wlan0") else none

pub set_here : (table : ℕ) (b : Bool) (net : Routes) → with_route table b net table ≡ b
set_here table b net = rw (==_self table, if◌then◌else◌) refl

pub set_others :
    (table table' : ℕ) (b : Bool) (net : Routes)
    → table ≢ table'
    → with_route table b net table' ≡ net table'
set_others table table' b net n = elim (Bool-cases (table' == table)) [
  | inl same ↦ absurd (n (sym (==_sound table' table same)))
  | inr differ ↦ rw (differ, if◌then◌else◌) refl
]

true-false : true ≡ false → ⊥
true-false e = cc

pub wlan_index :
    (iface : Text)
    → ((if text_eq iface (codes "wlan0") then 3 else 0) == 0) ≡ false
    → iface ≡ codes "wlan0"
wlan_index iface h = elim (Bool-cases (text_eq iface (codes "wlan0"))) [
  | inl same ↦ text_eq_sound iface (codes "wlan0") same
  | inr differ ↦
      let clash : true ≡ false = rw (differ, if◌then◌else◌) at h in absurd (true-false clash)
]

pub wlan_gone :
    (iface : Text) (present : Bool)
    → (wlan_only.if_nametoindex iface (λ table. false) ≡ 0)
    → wlan_route present ≢ some iface
unfolding text_eq
wlan_gone iface false h e = cc
wlan_gone iface true h e =
    let same : codes "wlan0" ≡ iface = cc in
    let clash : ◌≡◌ {A = ℕ} 3 0 = rw (← same) at h in omega (arith, clash)

unfoldable pub wlan_laws : RouteLaws wlan_only
wlan_laws = record {
  default_of = λ table net. wlan_route (net table);
  added = λ gateway iface table net h.
      inl (ap wlan_route (set_here table true net) ∙ ap some (sym (wlan_index iface h)));
  add_others =
      λ gateway ifindex table table' net n. ap wlan_route (set_others table table' true net n);
  deleted = λ iface table net h. ap wlan_route (set_here table false net);
  missing = λ ifindex table net h. ap wlan_route (set_here table false net);
  delete_others = λ ifindex table table' net n. ap wlan_route (set_others table table' false net n);
  gone = λ iface table net h. wlan_gone iface (net table) h;
}

abbrev pub genl : Genl Routes
genl = record {
  get_family = λ n. (accepted, (some 30, n));
  command = λ family c n. (accepted, n);
  getifaddrs = λ n. some (record { name = codes "wlan0"; ipv4 = some 0x0201A8C0 } ∷ []);
}

genl_apart : EndpointsApart wlan_only genl wlan_laws
genl_apart table route = record {
  by_get_family = λ net h. h;
  by_add_addr = λ family addr ifindex net h. h;
}

abbrev gone : WpaEvent
gone = record up { type = disconnected }

abbrev up_and_down : List Happening
up_and_down = delivers around 0 up ∷ hangs_up around.env 7 ∷ delivers around 0 gone ∷ []

up-IsAlive : IsAlive up
up-IsAlive e = cc

gone-IsAlive : IsAlive gone
gone-IsAlive e = cc

run-new_fsms-IsSteered_example :
    let (fsms, w) =
      run wlan_only genl 64
        (multipath ∷ [])
        up_and_down
        (new_fsms wlan_only genl 64 (multipath ∷ []))
        (new_world wlan_only genl 64 (multipath ∷ []) (λ table. false)) in
    (map (λ fsm. fsm.config) fsms ≡ multipath ∷ []) × All (IsSteered wlan_only wlan_laws w.net) fsms
unfolding wlan_laws
run-new_fsms-IsSteered_example =
    run-new_fsms-IsSteered wlan_only genl wlan_laws genl_apart 64 (multipath ∷ []) (λ table. false)
      up_and_down multipath-IsLoaded (refl, tt)
      ((refl, up-IsAlive), (tt, ((refl, gone-IsAlive), tt)))

abbrev route_after : List Happening → Bool
route_after steps =
    (run wlan_only genl 64 (multipath ∷ []) steps (new_fsms wlan_only genl 64 (multipath ∷ []))
        (new_world wlan_only genl 64 (multipath ∷ []) (λ table. false))).1.net
      100

-- The path is up with its route, and down without it.
routes_seen : (route_after (delivers around 0 up ∷ []) ≡ true) × (route_after up_and_down ≡ false)
unfolding run new_fsms new_world text_eq deliver callbacks_of on_wpa_event add_endpoints
    add_default_route query_gateway_for_iface new_fsm query_lines gateway_of lines row_of htonl
    stoul_hex read_digits digit_in is_hex_start outcome remove_default_route
routes_seen = (refl, refl)

-- Terminating instead: the path goes down, and the route stays.
abbrev bye : WpaEvent
bye = record up { type = terminating }

abbrev came_up : List PathStateFsm × World Routes
came_up =
    run wlan_only genl 64 (multipath ∷ []) (delivers around 0 up ∷ [])
      (new_fsms wlan_only genl 64 (multipath ∷ []))
      (new_world wlan_only genl 64 (multipath ∷ []) (λ table. false))

came_up_lem : state_at 0 came_up.0 ≡ some path_up
unfolding run new_fsms new_world text_eq deliver callbacks_of on_wpa_event add_endpoints
    add_default_route query_gateway_for_iface new_fsm query_lines gateway_of lines row_of htonl
    stoul_hex read_digits digit_in is_hex_start outcome remove_default_route
came_up_lem = refl

route_leak_example :
    let (fsms', w') =
      run wlan_only genl 64
        (multipath ∷ [])
        (delivers around 0 bye ∷ delivers around 0 gone ∷ [])
        came_up.0
        came_up.1 in
    (state_at 0 fsms' ≡ some path_down) × (w'.net ≡ came_up.1.net)
route_leak_example =
    route_leak wlan_only genl 64 (multipath ∷ []) around around 0 bye gone came_up.0 came_up.1 refl
      refl came_up_lem
