-- ===== src/Api/Transfer/Reliable.antt =====
-- The transfer loops of api/consumer_api_server.cpp on a socket that has room for what is sent and
-- holds what is read.
use wifi_offload_rpi.Prelude.{
  Bool, Option, Text, [], ap, arith, drop, length, length-append, length-drop, refl, some, suc, sym,
  take, take-drop, true, zero, ℕ, ◌++◌, ◌-◌, ◌∙◌, ◌∷◌, ◌≡◌, ◌≤◌,
}
use wifi_offload_rpi.Api.Transfer.Total.{StreamLaws, framed_by, recv_loop-more, send_loop-more}
use wifi_offload_rpi.Api.Wire.{ApiMsg}
use wifi_offload_rpi.Api.Wire.Frame.{IsWire, decode-encode, encode, length-encode, msg_size}
use wifi_offload_rpi.Api.Transfer.{
  StreamSocket, decoded, prepend, recv_loop, recv_msg, send_loop, send_msg, try_send_msg,
}
use mathlib.Core.List.{append_assoc, append-nil}

-- A socket without failures: send takes a byte at least, recv gives one at least of those that have
-- come, and neither direction disturbs the other.
pub record ReliableLaws (socket : StreamSocket) (laws : StreamLaws socket) : Type 0 where
  pub send_takes :
      (b : ℕ) (bs : Text) (s : socket.State)
      → (n : ℕ) × (socket.send (b ∷ bs) s ≡ (some (suc n), (socket.send (b ∷ bs) s).1))
  pub recv_gives :
      (n b : ℕ) (bs : Text) (s : socket.State)
      → laws.coming s ≡ b ∷ bs
      → (c : ℕ) × (cs : Text) × (socket.recv (suc n) s ≡ (some (c ∷ cs), (socket.recv (suc n) s).1))
  pub send_coming :
      (bytes : Text) (s : socket.State) → laws.coming (socket.send bytes s).1 ≡ laws.coming s
  pub recv_given : (n : ℕ) (s : socket.State) → laws.given (socket.recv n s).1 ≡ laws.given s

first_byte : (t : Text) → 1 ≤ length t → (b : ℕ) × (bs : Text) × (t ≡ b ∷ bs)
first_byte [] h = absurd (omega arith)
first_byte (b ∷ bs) h = (b, bs, refl)

module _ (socket : StreamSocket) (laws : StreamLaws socket)
    (reliable : ReliableLaws socket laws) where
  open socket use {State}

  abbrev AllSent : Text → State → Option (Bool × State) → Type 0
  AllSent bytes s r =
      (s' : State) × (r ≡ some (true, s'))
      × (laws.given s' ≡ laws.given s ++ bytes)
      × (laws.coming s' ≡ laws.coming s)

  send_loop-AllSent :
      (fuel : ℕ) (bytes : Text) (s : State)
      → length bytes ≤ fuel
      → AllSent bytes s (send_loop socket fuel bytes s)
  unfolding send_loop
  send_loop-AllSent fuel [] s h = (s, refl, sym (append-nil (laws.given s)), refl)
  send_loop-AllSent zero (c ∷ cs) s h = absurd (omega arith)
  send_loop-AllSent (suc fuel) (c ∷ cs) s h =
      let (n, e) = reliable.send_takes c cs s in
      let mid = (socket.send (c ∷ cs) s).1 in
      let (s', done, gave, kept) =
        send_loop-AllSent fuel (drop n cs) mid (omega (arith, length-drop n cs)) in
      (
        s',
        send_loop-more socket laws fuel c n cs s (ap (λ r. r.0) e) ∙ done,
        gave
            ∙ ap (λ x. x ++ drop n cs) (laws.send_some (c ∷ cs) s mid (suc n) e).1
            ∙ append_assoc (laws.given s) (take (suc n) (c ∷ cs)) (drop n cs)
            ∙ ap (λ x. laws.given s ++ x) (take-drop (suc n) (c ∷ cs)),
        kept ∙ reliable.send_coming (c ∷ cs) s,
      )

  -- The loop gets all the bytes that were asked for.
  abbrev AllReceived : ℕ → State → Option (Option Text × State) → Type 0
  AllReceived rem s r =
      (taken : Text) × (s' : State) × (r ≡ some (some taken, s'))
      × (length taken ≡ rem)
      × (laws.coming s ≡ taken ++ laws.coming s')
      × (laws.given s' ≡ laws.given s)

  more-AllReceived :
      (b : ℕ) (bs : Text) (rem : ℕ) (s s' : State) (r : Option (Option Text × State))
      → length bs ≤ rem
      → laws.coming s ≡ b ∷ bs ++ laws.coming s'
      → laws.given s' ≡ laws.given s
      → AllReceived (rem - length bs) s' r
      → AllReceived (suc rem) s (prepend socket (b ∷ bs) r)
  unfolding prepend
  more-AllReceived b bs rem s s' r fits split same (taken, s'', done, full, later, kept) = (
    b ∷ bs ++ taken,
    s'',
    ap (prepend socket (b ∷ bs)) done,
    omega (arith, length-append bs taken),
    split ∙ ap (λ x. b ∷ bs ++ x) later ∙ sym (append_assoc (b ∷ bs) taken (laws.coming s'')),
    kept ∙ same,
  )

  recv_loop-AllReceived :
      (fuel rem : ℕ) (s : State)
      → rem ≤ fuel
      → rem ≤ length (laws.coming s)
      → AllReceived rem s (recv_loop socket fuel rem s)
  unfolding recv_loop
  recv_loop-AllReceived fuel zero s h room = ([], s, refl, refl, refl, refl)
  recv_loop-AllReceived zero (suc rem) s h room = absurd (omega arith)
  recv_loop-AllReceived (suc fuel) (suc rem) s h room =
      let (x, xs, waiting) = first_byte (laws.coming s) (omega arith) in
      let (b, bs, got) = reliable.recv_gives rem x xs s waiting in
      let (fits, split) = laws.recv_some (suc rem) s _ (b ∷ bs) got in
      let sizes = length-append (b ∷ bs) (laws.coming (socket.recv (suc rem) s).1) in
      rw (recv_loop-more socket laws fuel rem b bs s (ap (λ r. r.0) got)) (
        more-AllReceived b bs rem s (socket.recv (suc rem) s).1 _ (omega arith) split
          (reliable.recv_given (suc rem) s)
          (recv_loop-AllReceived fuel (rem - length bs) (socket.recv (suc rem) s).1 (omega arith)
            (omega (arith, sizes, ap length split))))

  -- sendMsg gives the whole frame.
  pub send_msg-encode :
      (msg : ApiMsg) (s : State)
      → IsWire msg
      → (s' : State) × (send_msg socket msg s ≡ some s')
        × (laws.given s' ≡ laws.given s ++ encode msg)
        × (laws.coming s' ≡ laws.coming s)
  unfolding send_msg try_send_msg encode
  send_msg-encode msg s v =
      let (s', done, gave, kept) =
        send_loop-AllSent msg_size (encode msg) s (omega (arith, length-encode msg v)) in
      (s', rw done refl, gave, kept)

  -- recvMsg reads the frame that comes next.
  pub recv_msg-encode :
      (msg : ApiMsg) (rest : Text) (s : State)
      → IsWire msg
      → laws.coming s ≡ encode msg ++ rest
      → (s' : State) × (recv_msg socket s ≡ some (some msg, s'))
        × (laws.coming s' ≡ rest)
        × (laws.given s' ≡ laws.given s)
  unfolding recv_msg
  recv_msg-encode msg rest s v comes =
      let size = length-append (encode msg) rest in
      let (taken, s', done, full, split, kept) =
        recv_loop-AllReceived msg_size msg_size s (omega arith)
          (omega (arith, length-encode msg v, size, ap length comes)) in
      let (same, left) = framed_by socket laws msg rest taken s s' v comes split full in
      (
        s',
        ap (decoded socket) done
            ∙ rw same (unfold decoded in ap (λ x. some (some x, s')) (decode-encode msg v)),
        left,
        kept,
      )
