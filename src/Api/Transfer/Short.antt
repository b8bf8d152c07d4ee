-- ===== src/Api/Transfer/Short.antt =====
-- recvMsg (api/consumer_api_server.cpp) on a stream that holds less than a message.
use wifi_offload_rpi.Prelude.{
  ap, arith, false, length, length-append, none, refl, some, ℕ, ◌<◌, ◌==◌, ◌∙◌, ◌≡◌,
}
use wifi_offload_rpi.Api.Wire.Frame.{msg_size}
use wifi_offload_rpi.Api.Transfer.{StreamSocket, decoded, recv_msg}
use wifi_offload_rpi.Api.Transfer.Total.{StreamLaws, recv_loop-Received}

less_differs : (a b : ℕ) → a < b → (a == b) ≡ false
less_differs a b h = ground arith

module _ (socket : StreamSocket) (laws : StreamLaws socket) where
  open socket use {State}

  -- The end of a message that has come in part only.
  pub recv_msg_short :
      (s : State)
      → length (laws.coming s) < msg_size
      → (s' : State) × (recv_msg socket s ≡ some (none, s'))
  unfolding recv_msg
  recv_msg_short s short =
      let (taken, s', e, few, split) =
        recv_loop-Received socket laws msg_size msg_size s (omega arith) in
      let size = length-append taken (laws.coming s') in
      let part : (length taken == msg_size) ≡ false =
        less_differs (length taken) msg_size (omega (arith, size, ap length split)) in
      (s', ap (decoded socket) e ∙ rw part (unfold decoded in refl))
