-- ===== src/Daemon.antt =====
-- main.cpp: how the daemon joins its parts. `World` is what the callbacks share; an event of a monitor
-- is one step, with all the callbacks that it causes.
pub mod Main
pub mod Signals
pub mod Cache
pub mod Agreement
pub mod RouteCalls
pub mod Routes
pub mod Examples
use wifi_offload_rpi.Prelude.{
  List, Option, Text, [], if◌then◌else◌, is_empty, not, some, suc, zero, ℕ, ℤ, ◌++◌, ◌==◌, ◌∷◌,
}
use wifi_offload_rpi.Types.{PathClassConfig, PathState, WpaEvent}
use wifi_offload_rpi.Fsm.{Callbacks, PathStateFsm, new_fsm, on_wpa_event}
use wifi_offload_rpi.Api.Server.{
  Effect, Env, Server, broadcast_path_event, handle_client, new_server, remove_client,
  update_current_state,
}
use wifi_offload_rpi.Api.Wire.{ApiMsg}
use wifi_offload_rpi.Routing.Netlink.{Netlink, add_default_route, remove_default_route}
use wifi_offload_rpi.Routing.Gateway.{query_gateway_for_iface}
use wifi_offload_rpi.Mptcp.{Genl, add_endpoints}

-- The kernel, the server, and what the server did, oldest first.
pub record World (Net : Type 0) : Type 0 where
  pub net : Net
  pub server : Server
  pub effects : List Effect

-- The world outside: the consumers' sockets, and the text of /proc/net/route.
pub record Surroundings : Type 0 where
  pub env : Env
  pub proc_net_route : Option Text

-- What a thread does in one step: the monitor at a position delivers an event, or the server serves
-- a readable descriptor or one that is hung up.
pub data Happening : Type 0 where
  delivers : Surroundings → ℕ → WpaEvent → Happening
  reads : Env → ℕ → Option ApiMsg → Happening
  hangs_up : Env → ℕ → Happening

module _ (netlink : Netlink) (genl : Genl netlink.Net) (word_bits : ℕ) (around : Surroundings)
    (classes : List PathClassConfig) where
  -- A failure is logged only.
  pub route_up : Text → ℕ → netlink.Net → netlink.Net
  route_up iface table net =
      let gw = query_gateway_for_iface word_bits iface around.proc_net_route in
      if not (gw == 0) then (add_default_route netlink iface gw table net).1 else net

  pub endpoints_up : PathClassConfig → netlink.Net → netlink.Net
  endpoints_up cls net =
      if cls.mptcp_enabled then (add_endpoints netlink genl classes net).1 else net

  state_changed : PathClassConfig → PathState → Text → ℤ → World netlink.Net → World netlink.Net
  state_changed cls to iface rssi w =
      let (server', effects') = broadcast_path_event around.env cls.id to iface rssi w.server in
      record w { server = update_current_state cls.id to server'; effects = w.effects ++ effects' }

  unfoldable pub callbacks_of : PathClassConfig → Callbacks (World netlink.Net)
  unfolding route_up endpoints_up state_changed
  callbacks_of cls = record {
    on_path_up =
        some (λ iface table w. record w { net = endpoints_up cls (route_up iface table w.net) });
    on_path_down =
        some
          (λ iface table w. record w { net = (remove_default_route netlink iface table w.net).1 });
    on_state_changed = some (λ from to iface rssi w. state_changed cls to iface rssi w);
  }

  -- An event of the monitor with the given position; each has the machine at that position.
  unfoldable pub deliver :
      ℕ → WpaEvent → List PathStateFsm → World netlink.Net → List PathStateFsm × World netlink.Net
  deliver i ev [] w = ([], w)
  deliver zero ev (fsm ∷ fsms) w =
      let (fsm', w') = on_wpa_event (callbacks_of fsm.config) ev fsm w in (fsm' ∷ fsms, w')
  deliver (suc i) ev (fsm ∷ fsms) w = let (fsms', w') = deliver i ev fsms w in (fsm ∷ fsms', w')

module _ (netlink : Netlink) (genl : Genl netlink.Net) (word_bits : ℕ) where
  served : Server × List Effect → World netlink.Net → World netlink.Net
  served (server', effects') w = record w { server = server'; effects = w.effects ++ effects' }

  unfoldable pub happen :
      List PathClassConfig
      → Happening
      → List PathStateFsm
      → World netlink.Net
      → List PathStateFsm × World netlink.Net
  unfolding served
  happen classes (delivers around i ev) fsms w =
      deliver netlink genl word_bits around classes i ev fsms w
  happen classes (reads env fd msg) fsms w = (fsms, served (handle_client env fd msg w.server) w)
  happen classes (hangs_up env fd) fsms w = (fsms, served (remove_client env fd w.server) w)

  -- The steps of all threads in the order in which they take effect.
  unfoldable pub run :
      List PathClassConfig
      → List Happening
      → List PathStateFsm
      → World netlink.Net
      → List PathStateFsm × World netlink.Net
  unfolding happen
  run classes [] fsms w = (fsms, w)
  run classes (h ∷ steps) fsms w =
      let (fsms', w') = happen classes h fsms w in run classes steps fsms' w'

  -- One machine for each class that has an interface.
  unfoldable pub new_fsms : List PathClassConfig → List PathStateFsm
  new_fsms [] = []
  new_fsms (cls ∷ rest) =
      if is_empty cls.interfaces then new_fsms rest else new_fsm cls ∷ new_fsms rest

  unfoldable pub new_world : List PathClassConfig → netlink.Net → World netlink.Net
  new_world classes net = record { net = net; server = new_server classes; effects = [] }
