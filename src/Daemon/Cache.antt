-- ===== src/Daemon/Cache.antt =====
-- The state that the server caches for a class (api/consumer_api_server.cpp) against the state of
-- the class's machine, as main.cpp joins them.
use wifi_offload_rpi.Prelude.{
  List, Text, arith, if◌then◌else◌, text_eq, text_eq_sound, true, ℕ, ℤ, ◌∙◌, ◌≡◌,
}
use wifi_offload_rpi.Types.{PathClassConfig, PathState, WpaEvent, state_eq}
use wifi_offload_rpi.Fsm.{PathStateFsm, next_state, on_wpa_event, transition}
use wifi_offload_rpi.Routing.Netlink.{Netlink}
use wifi_offload_rpi.Mptcp.{Genl}
use wifi_offload_rpi.Api.Server.{query_current_state}
use wifi_offload_rpi.Api.Server.Invariant.{is_known}
use wifi_offload_rpi.Api.Server.Cache.{
  broadcast_path_event-known, query-broadcast_path_event, query-update_current_state,
  update_current_state-known,
}
use wifi_offload_rpi.Daemon.{Surroundings, World, callbacks_of, state_changed}

module _ (netlink : Netlink) (genl : Genl netlink.Net) (word_bits : ℕ) (around : Surroundings)
    (classes : List PathClassConfig) where
  abbrev W : Type 0
  W = World netlink.Net

  abbrev changed : PathClassConfig → PathState → Text → ℤ → W → W
  changed = state_changed netlink genl word_bits around classes

  changed-known :
      (cls : PathClassConfig) (id iface : Text) (new : PathState) (rssi : ℤ) (w : W)
      → is_known id (changed cls new iface rssi w).server.class_states
        ≡ is_known id w.server.class_states
  unfolding state_changed
  changed-known cls id iface new rssi w =
      update_current_state-known cls.id id new _
      ∙ broadcast_path_event-known around.env cls.id id iface new rssi w.server

  changed-query :
      (cls : PathClassConfig) (id iface : Text) (new : PathState) (rssi : ℤ) (w : W)
      → is_known cls.id w.server.class_states ≡ true
      → query_current_state id (changed cls new iface rssi w).server
        ≡ (if text_eq cls.id id then new else query_current_state id w.server)
  unfolding state_changed
  changed-query cls id iface new rssi w k =
      query-update_current_state cls.id id new _
        (broadcast_path_event-known around.env cls.id cls.id iface new rssi w.server ∙ k)
      ∙ ground (arith, query-broadcast_path_event around.env cls.id id iface new rssi w.server k)

  state_eq_sound : (a b : PathState) → state_eq a b ≡ true → a ≡ b
  state_eq_sound a b h = ground arith

  transition-server :
      (new : PathState) (iface : Text) (rssi : ℤ) (fsm : PathStateFsm) (w : W)
      → (transition
          (callbacks_of netlink genl word_bits around classes fsm.config)
          new
          iface
          rssi
          fsm
          w).1.server
        ≡ (if state_eq new fsm.state
            then w.server
            else (changed fsm.config new iface rssi w).server)
  unfolding transition callbacks_of state_changed
  transition-server new iface rssi fsm w = ground arith

  pub transition-fsm :
      (new : PathState) (iface : Text) (rssi : ℤ) (fsm : PathStateFsm) (w : W)
      → let fsm' =
          (transition
            (callbacks_of netlink genl word_bits around classes fsm.config)
            new
            iface
            rssi
            fsm
            w).0 in
        (fsm'.config ≡ fsm.config) × (fsm'.state ≡ new)
  unfolding transition
  transition-fsm new iface rssi fsm w = ground (arith, state_eq_sound new fsm.state)

  unfoldable pub on_event : WpaEvent → PathStateFsm → W → PathStateFsm × W
  on_event ev fsm w =
      on_wpa_event (callbacks_of netlink genl word_bits around classes fsm.config) ev fsm w

  pub on_event-known :
      (ev : WpaEvent) (fsm : PathStateFsm) (w : W) (id : Text)
      → is_known id (on_event ev fsm w).1.server.class_states ≡ is_known id w.server.class_states
  unfolding on_event on_wpa_event
  on_event-known ev fsm w id =
      let new = next_state fsm.state ev fsm.config.rssi in
      rw (transition-server new ev.iface ev.rssi fsm w)
        (ground (arith, changed-known fsm.config id ev.iface new ev.rssi w))

  -- The class's own cache has the new state; the others are as before.
  pub on_event-query :
      (ev : WpaEvent) (fsm : PathStateFsm) (w : W) (id : Text)
      → is_known fsm.config.id w.server.class_states ≡ true
      → query_current_state fsm.config.id w.server ≡ fsm.state
      → query_current_state id (on_event ev fsm w).1.server ≡ (
          if text_eq fsm.config.id id
          then (on_event ev fsm w).0.state
          else query_current_state id w.server)
  unfolding on_event on_wpa_event
  on_event-query ev fsm w id k h =
      let new = next_state fsm.state ev fsm.config.rssi in
      rw
        (
          transition-server new ev.iface ev.rssi fsm w,
          (transition-fsm new ev.iface ev.rssi fsm w).1,
        )
        (ground (
          arith,
          changed-query fsm.config id ev.iface new ev.rssi w k,
          state_eq_sound new fsm.state,
          text_eq_sound fsm.config.id id,
        ))

  pub on_event-config :
      (ev : WpaEvent) (fsm : PathStateFsm) (w : W) → (on_event ev fsm w).0.config ≡ fsm.config
  unfolding on_event on_wpa_event
  on_event-config ev fsm w =
      (transition-fsm (next_state fsm.state ev fsm.config.rssi) ev.iface ev.rssi fsm w).0
