-- ===== src/Daemon/Routes.antt =====
-- The default routes of the kernel's tables under the steps of all threads (main.cpp): what the
-- callbacks of the machines (fsm/path_state_fsm.cpp) have the routing manager do.
pub mod Kept
pub mod Steered
pub mod Leak
pub mod Examples
use wifi_offload_rpi.Prelude.{
  Bool-cases, List, Text, [], arith, false, if◌then◌else◌, inl, inr, is_empty, none, not, refl,
  some, true, ℕ, ℤ, ◌&&◌, ◌||◌, ◌∙◌, ◌∷◌, ◌≡◌, ◌≢◌, ◌⊎◌,
}
use wifi_offload_rpi.Types.{
  PathClassConfig, PathState, WpaEvent, path_degraded, path_down, path_up, state_eq,
}
use wifi_offload_rpi.Daemon.RouteCalls.{
  EndpointsApart, endpoints_up-default_of, route_up-default_of, route_up-others,
}
use wifi_offload_rpi.Fsm.Routes.{IsAlive, down_entry}
use wifi_offload_rpi.Daemon.Cache.{on_event, transition-fsm}
use wifi_offload_rpi.Fsm.{PathStateFsm, is_down_state, next_state, on_wpa_event, transition}
use wifi_offload_rpi.Mptcp.{Genl}
use wifi_offload_rpi.Routing.Netlink.{Netlink, remove_default_route}
use wifi_offload_rpi.Routing.Netlink.Routes.{
  RouteLaws, remove_default_route-default_of, remove_default_route-others,
}
use wifi_offload_rpi.Daemon.{
  Surroundings, World, callbacks_of, endpoints_up, route_up, state_changed,
}

-- The interface that the monitor of a class watches: `cls.interfaces.front()`.
abbrev pub watched_iface : List Text → Text
watched_iface [] = []
watched_iface (iface ∷ rest) = iface

-- A path that is down has no interface, and the default route of the machine's table, if there is
-- one, goes through the monitored interface, which is the machine's then.
pub record IsOwned (netlink : Netlink) (laws : RouteLaws netlink) (net : netlink.Net)
    (fsm : PathStateFsm) : Type 0 where
  pub cleared : is_down_state fsm.state ≡ true → fsm.active_iface ≡ []
  pub owned :
      (laws.default_of fsm.config.routing_table net ≡ none)
      ⊎ ((laws.default_of fsm.config.routing_table net ≡ some (watched_iface fsm.config.interfaces))
          × (fsm.active_iface ≡ watched_iface fsm.config.interfaces))

module _ (netlink : Netlink) (genl : Genl netlink.Net) (laws : RouteLaws netlink)
    (apart : EndpointsApart netlink genl laws) (word_bits : ℕ) (around : Surroundings)
    (classes : List PathClassConfig) where
  open netlink use {Net}

  abbrev opened : PathStateFsm → Text → Net → Net
  opened fsm iface net =
      endpoints_up netlink genl word_bits around classes fsm.config
        (route_up netlink genl word_bits around classes iface fsm.config.routing_table net)

  abbrev shut : PathStateFsm → Net → Net
  shut fsm net =
      if not (is_empty fsm.active_iface)
      then (remove_default_route netlink fsm.active_iface fsm.config.routing_table net).1
      else net

  -- The kernel, and below the machine's interface, after an event that takes the machine to a state.
  abbrev net_after : PathState → Text → PathStateFsm → Net → Net
  net_after new iface fsm net =
      if state_eq new fsm.state
      then net
      else if state_eq new path_up
      then opened fsm iface net
      else if state_eq new path_down
          && (state_eq fsm.state path_up || state_eq fsm.state path_degraded)
      then shut fsm net
      else net

  transition-net :
      (new : PathState) (iface : Text) (rssi : ℤ) (fsm : PathStateFsm) (w : World Net)
      → (transition
          (callbacks_of netlink genl word_bits around classes fsm.config)
          new
          iface
          rssi
          fsm
          w).1.net
        ≡ net_after new iface fsm w.net
  unfolding transition callbacks_of state_changed
  transition-net new iface rssi fsm w = ground arith

  opened-default_of :
      (fsm : PathStateFsm) (iface : Text) (net : Net)
      → (laws.default_of fsm.config.routing_table (opened fsm iface net) ≡ some iface)
        ⊎ (laws.default_of fsm.config.routing_table (opened fsm iface net)
            ≡ laws.default_of fsm.config.routing_table net)
  opened-default_of fsm iface net =
      rw
        (endpoints_up-default_of netlink genl laws apart word_bits around classes fsm.config
          fsm.config.routing_table _)
        (route_up-default_of netlink genl laws apart word_bits around classes iface
          fsm.config.routing_table net)

  opened-others :
      (fsm : PathStateFsm) (iface : Text) (table : ℕ) (net : Net)
      → fsm.config.routing_table ≢ table
      → laws.default_of table (opened fsm iface net) ≡ laws.default_of table net
  opened-others fsm iface table net n =
      endpoints_up-default_of netlink genl laws apart word_bits around classes fsm.config table _
      ∙ route_up-others netlink genl laws apart word_bits around classes iface _ table net n

  shut-others :
      (fsm : PathStateFsm) (table : ℕ) (net : Net)
      → fsm.config.routing_table ≢ table
      → laws.default_of table (shut fsm net) ≡ laws.default_of table net
  shut-others fsm table net n = elim (Bool-cases (is_empty fsm.active_iface)) [
    | inl none_there ↦ rw (none_there, if◌then◌else◌, not) refl
    | inr there ↦
        rw (there, if◌then◌else◌, not)
          (remove_default_route-others netlink laws fsm.active_iface fsm.config.routing_table table
            net n)
  ]

  abbrev active_after : PathState → Text → PathStateFsm → Text
  active_after new iface fsm =
      if state_eq new fsm.state
      then fsm.active_iface
      else if state_eq new path_up
      then iface
      else if state_eq new path_down
          && (state_eq fsm.state path_up || state_eq fsm.state path_degraded)
      then []
      else fsm.active_iface

  transition-active :
      (new : PathState) (iface : Text) (rssi : ℤ) (fsm : PathStateFsm) (w : World Net)
      → (transition
          (callbacks_of netlink genl word_bits around classes fsm.config)
          new
          iface
          rssi
          fsm
          w).0.active_iface
        ≡ active_after new iface fsm
  unfolding transition
  transition-active new iface rssi fsm w = ground arith

  shut-default_of :
      (fsm : PathStateFsm) (net : Net)
      → is_empty (watched_iface fsm.config.interfaces) ≡ false
      → IsOwned netlink laws net fsm
      → laws.default_of fsm.config.routing_table (shut fsm net) ≡ none
  shut-default_of fsm net n h = elim h.owned [
    | inl absent ↦ elim (Bool-cases (is_empty fsm.active_iface)) [
      | inl e ↦ rw (e, if◌then◌else◌, not) absent
      | inr e ↦
          rw (e, if◌then◌else◌, not)
            (remove_default_route-default_of netlink laws fsm.active_iface fsm.config.routing_table
              net (inl absent))
    ]
    | inr (present, same) ↦
        rw (same, n, if◌then◌else◌, not)
          (remove_default_route-default_of netlink laws (watched_iface fsm.config.interfaces)
            fsm.config.routing_table net (inr present))
  ]

  opened-owned :
      (fsm : PathStateFsm) (net : Net)
      → IsOwned netlink laws net fsm
      → let iface = watched_iface fsm.config.interfaces in
        let found = laws.default_of fsm.config.routing_table (opened fsm iface net) in
        (found ≡ none) ⊎ ((found ≡ some iface) × (iface ≡ iface))
  opened-owned fsm net h = elim (opened-default_of fsm (watched_iface fsm.config.interfaces) net) [
    | inl replaced ↦ inr (replaced, refl)
    | inr kept ↦ elim h.owned [
      | inl absent ↦ inl (kept ∙ absent)
      | inr (present, same) ↦ inr (kept ∙ present, refl)
    ]
  ]

  after-owned :
      (new : PathState) (fsm : PathStateFsm) (net : Net)
      → is_empty (watched_iface fsm.config.interfaces) ≡ false
      → IsOwned netlink laws net fsm
      → let iface = watched_iface fsm.config.interfaces in
        let found = laws.default_of fsm.config.routing_table (net_after new iface fsm net) in
        (found ≡ none) ⊎ ((found ≡ some iface) × (active_after new iface fsm ≡ iface))
  after-owned new fsm net n h = elim (Bool-cases (state_eq new fsm.state)) [
    | inl same ↦ rw (same, if◌then◌else◌) h.owned
    | inr moved ↦ elim (Bool-cases (state_eq new path_up)) [
      | inl up ↦ rw (moved, up, if◌then◌else◌) (opened-owned fsm net h)
      | inr not_up ↦
          elim (Bool-cases (
            state_eq new path_down
            && (state_eq fsm.state path_up || state_eq fsm.state path_degraded))) [
              | inl down ↦
                  rw (moved, not_up, down, if◌then◌else◌) (inl (shut-default_of fsm net n h))
              | inr stays ↦ rw (moved, not_up, stays, if◌then◌else◌) h.owned
            ]
    ]
  ]

  after-cleared :
      (new : PathState) (iface : Text) (fsm : PathStateFsm)
      → (is_down_state new ≡ true → (is_down_state fsm.state ≡ true) ⊎ (new ≡ path_down))
      → (is_down_state fsm.state ≡ true → fsm.active_iface ≡ [])
      → is_down_state new ≡ true
      → active_after new iface fsm ≡ []
  unfolding is_down_state
  after-cleared new iface fsm entry h down = ground arith

  -- Another table than the machine's own.
  after-others :
      (new : PathState) (iface : Text) (fsm : PathStateFsm) (table : ℕ) (net : Net)
      → fsm.config.routing_table ≢ table
      → laws.default_of table (net_after new iface fsm net) ≡ laws.default_of table net
  after-others new iface fsm table net n =
      let opening = opened-others fsm iface table net n in
      let shutting = shut-others fsm table net n in ground arith

  pub on_event-others :
      (ev : WpaEvent) (fsm : PathStateFsm) (w : World Net) (table : ℕ)
      → fsm.config.routing_table ≢ table
      → laws.default_of table (on_event netlink genl word_bits around classes ev fsm w).1.net
        ≡ laws.default_of table w.net
  unfolding on_event on_wpa_event
  on_event-others ev fsm w table n =
      let new = next_state fsm.state ev fsm.config.rssi in
      rw (transition-net new ev.iface ev.rssi fsm w) (after-others new ev.iface fsm table w.net n)

  -- An event of the monitored interface that does not announce the end of wpa_supplicant.
  pub on_event-IsOwned :
      (ev : WpaEvent) (fsm : PathStateFsm) (w : World Net)
      → is_empty (watched_iface fsm.config.interfaces) ≡ false
      → ev.iface ≡ watched_iface fsm.config.interfaces
      → IsAlive ev
      → IsOwned netlink laws w.net fsm
      → let (fsm', w') = on_event netlink genl word_bits around classes ev fsm w in
        IsOwned netlink laws w'.net fsm'
  unfolding on_event on_wpa_event
  on_event-IsOwned ev fsm w n own alive h =
      let new = next_state fsm.state ev fsm.config.rssi in
      let (config, state) =
        transition-fsm netlink genl word_bits around classes new ev.iface ev.rssi fsm w in
      let active = transition-active new ev.iface ev.rssi fsm w in
      let net = transition-net new ev.iface ev.rssi fsm w in
      record {
        cleared =
            rw (state, active)
              (after-cleared new ev.iface fsm (down_entry fsm.state ev fsm.config.rssi alive)
                h.cleared);
        owned = rw (config, active, net, own) (after-owned new fsm w.net n h);
      }
