-- ===== src/Api/Transfer.antt =====
-- api/consumer_api_server.cpp, sendMsg, trySendMsg and recvMsg: the loops that move a message
-- through a stream socket, which may take or give a part at a time.
pub mod Total
pub mod Reliable
pub mod Short
pub mod Examples
use wifi_offload_rpi.Prelude.{
  Bool, Option, Text, [], drop, false, if◌then◌else◌, is_empty, length, none, some, suc, true, zero,
  ℕ, ◌++◌, ◌-◌, ◌==◌, ◌∷◌,
}
use wifi_offload_rpi.Api.Wire.{ApiMsg}
use wifi_offload_rpi.Api.Wire.Frame.{decode, encode, msg_size}

-- send and recv of the system on one socket. `none` is -1. recv gives the bytes that it wrote; none
-- of them is the end of the stream.
pub record StreamSocket : Type 1 where
  pub State : Type 0
  pub send : Text → State → Option ℕ × State
  pub recv : ℕ → State → Option Text × State

module _ (socket : StreamSocket) where
  open socket use {State, send, recv}

  -- `rem` is the length of what is left; the outer `none` is the end of the fuel.
  pub send_loop : ℕ → Text → State → Option (Bool × State)
  send_loop fuel [] s = some (true, s)
  send_loop zero (c ∷ cs) s = none
  send_loop (suc fuel) (c ∷ cs) s =
      let (n, s') = send (c ∷ cs) s in
      elim n [
        | none ↦ some (false, s')
        | some k ↦
            (let rest = send_loop fuel (drop k (c ∷ cs)) s' in
              if k == 0 then some (false, s') else rest)
      ]

  -- Each round moves a byte at least, so as many rounds as bytes are enough.
  unfoldable pub try_send_msg : ApiMsg → State → Option (Bool × State)
  unfolding send_loop
  try_send_msg msg s = send_loop msg_size (encode msg) s

  -- The same loop, without its result.
  unfoldable pub send_msg : ApiMsg → State → Option State
  unfolding try_send_msg
  send_msg msg s = elim (try_send_msg msg s) [ none ↦ none | some (done, s') ↦ some s' ]

  pub prepend : Text → Option (Option Text × State) → Option (Option Text × State)
  prepend front none = none
  prepend front (some (none, s)) = some (none, s)
  prepend front (some (some bytes, s)) = some (some (front ++ bytes), s)

  -- The bytes of the buffer, or `none` for false.
  pub recv_loop : ℕ → ℕ → State → Option (Option Text × State)
  unfolding prepend
  recv_loop fuel zero s = some (some [], s)
  recv_loop zero (suc rem) s = none
  recv_loop (suc fuel) (suc rem) s =
      let (got, s') = recv (suc rem) s in
      elim got [
        | none ↦ some (none, s')
        | some bytes ↦
            (let rest = prepend bytes (recv_loop fuel (suc rem - length bytes) s') in
              if is_empty bytes then some (none, s') else rest)
      ]

  decoded : Option (Option Text × State) → Option (Option ApiMsg × State)
  decoded none = none
  decoded (some (none, s)) = some (none, s)
  decoded (some (some bytes, s)) = some (some (decode bytes), s)

  unfoldable pub recv_msg : State → Option (Option ApiMsg × State)
  unfolding recv_loop decoded
  recv_msg s = decoded (recv_loop msg_size msg_size s)
