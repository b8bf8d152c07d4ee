-- ===== src/Api/Session/Short.antt =====
-- A message that has come in part only (api/consumer_api_server.cpp, recvMsg and handleClient). Client
-- sockets do not block, so recv fails when nothing more has come.
use wifi_offload_rpi.Prelude.{Option-cases, [], find_if, inl, inr, length, refl, some, ℕ, ◌<◌, ◌≡◌}
use wifi_offload_rpi.Api.Transfer.Total.{StreamLaws}
use wifi_offload_rpi.Api.Transfer.Short.{recv_msg_short}
use wifi_offload_rpi.Api.Wire.Frame.{msg_size}
use wifi_offload_rpi.Api.Server.{Env, Server, drop_consumer, handle_client, has_fd, remove_client}
use wifi_offload_rpi.Api.Server.Replies.{remove_cgroup_pid-replies, replies}
use wifi_offload_rpi.Api.Transfer.{StreamSocket}
use wifi_offload_rpi.Api.Session.{handled, serve_client}
use wifi_offload_rpi.Api.Session.Answers.{perform-silent}

remove_client-replies : (env : Env) (fd : ℕ) (s : Server) → replies (remove_client env fd s).1 ≡ []
unfolding remove_client drop_consumer
remove_client-replies env fd s = elim (Option-cases (find_if (has_fd fd) s.registry)) [
  | inl e ↦ rw (e, remove_client, drop_consumer) refl
  | inr (x, e) ↦
      rw (e, remove_client, drop_consumer) (remove_cgroup_pid-replies env x.class_id x.pid s)
]

module _ (socket : StreamSocket) (laws : StreamLaws socket) (env : Env) (fd : ℕ) where
  open socket use {State}

  -- When fewer bytes have come than a message has, serving the descriptor ends all the same, and the
  -- server is afterwards what removeClient makes of it, whatever the bytes are.
  pub serve_client_short :
      (server : Server) (s : State)
      → length (laws.coming s) < msg_size
      → (s' : State) × (serve_client socket env fd server s
          ≡ some ((remove_client env fd server).0, s'))
  unfolding serve_client handled handle_client
  serve_client_short server s short =
      let (s', e) = recv_msg_short socket laws s short in
      let silent =
        perform-silent socket env fd (remove_client env fd server).1 s'
          (remove_client-replies env fd server) in
      (s', rw (e, handled, handle_client, silent) refl)
