-- ===== src/Api/Session.antt =====
-- api/consumer_api_server.cpp, handleClient with its transfers: a client's descriptor is served by
-- recvMsg, the handler and sendMsg on one stream socket.
pub mod Widths
pub mod Answers
pub mod Short
mod Examples
use wifi_offload_rpi.Prelude.{List, Option, [], false, none, some, suc, true, zero, ℕ, ◌==◌, ◌∷◌}
use wifi_offload_rpi.Api.Wire.{ApiMsg}
use wifi_offload_rpi.Api.Server.{
  Effect, Env, Server, closed, epoll_removed, handle_client, send, wrote,
}
use wifi_offload_rpi.Api.Transfer.{StreamSocket, recv_msg, send_msg}

module _ (socket : StreamSocket) (env : Env) (fd : ℕ) where
  open socket use {State}

  -- What a handler sends on this descriptor; the outer `none` is a transfer out of fuel.
  pub perform : List Effect → State → Option State
  perform [] s = some s
  perform (send to msg ∷ es) s = elim (to == fd) [
    | true ↦ elim (send_msg socket msg s) [ none ↦ none | some s' ↦ perform es s' ]
    | false ↦ perform es s
  ]
  perform (wrote path pid ∷ es) s = perform es s
  perform (epoll_removed to ∷ es) s = perform es s
  perform (closed to ∷ es) s = perform es s

  pub handled : Server → Option (Option ApiMsg × State) → Option (Server × State)
  unfolding perform
  handled server none = none
  handled server (some (msg, s)) =
      let (server', effects) = handle_client env fd msg server in
      elim (perform effects s) [ none ↦ none | some s' ↦ some (server', s') ]

  -- One wake-up of the descriptor.
  pub serve_client : Server → State → Option (Server × State)
  unfolding handled
  serve_client server s = handled server (recv_msg socket s)

  -- As many wake-ups as given, with the state of the server after the last.
  pub serve_clients : ℕ → Server → State → Option (Server × State)
  unfolding serve_client
  serve_clients zero server s = some (server, s)
  serve_clients (suc n) server s = elim (serve_client server s) [
    | none ↦ none
    | some (server', s') ↦ serve_clients n server' s'
  ]
