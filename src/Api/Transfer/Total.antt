-- ===== src/Api/Transfer/Total.antt =====
-- The transfer loops of api/consumer_api_server.cpp end, and what they have moved then.
use wifi_offload_rpi.Prelude.{
  ==_sound, Bool, Bool-cases, Option, Text, [], ap, arith, drop, false, if◌then◌else◌, inl, inr,
  is_empty, length, length-append, length-drop, none, refl, some, suc, sym, take, take-drop, zero,
  ℕ, ◌++◌, ◌-◌, ◌==◌, ◌∙◌, ◌∷◌, ◌≡◌, ◌≤◌, ◌⊎◌,
}
use wifi_offload_rpi.Api.Wire.Frame.{
  IsWire, decode-encode, drop-append, encode, length-encode, msg_size, take-append,
}
use wifi_offload_rpi.Api.Transfer.{
  StreamSocket, decoded, prepend, recv_loop, recv_msg, send_loop, try_send_msg,
}
use wifi_offload_rpi.Api.Wire.{ApiMsg}
use mathlib.Core.List.{append_assoc, append-nil}

-- What POSIX says of a stream socket: send takes a prefix of the bytes it is given, and recv gives
-- at most as many bytes as asked for, those that come next. `given` is all that the socket took so
-- far, `coming` what is still to be read; a failure changes neither.
pub record StreamLaws (socket : StreamSocket) : Type 0 where
  pub given : socket.State → Text
  pub coming : socket.State → Text
  pub send_some :
      (bytes : Text) (s s' : socket.State) (n : ℕ)
      → socket.send bytes s ≡ (some n, s')
      → (n ≤ length bytes) × (given s' ≡ given s ++ take n bytes)
  pub send_none :
      (bytes : Text) (s s' : socket.State) → socket.send bytes s ≡ (none, s') → given s' ≡ given s
  pub recv_some :
      (n : ℕ) (s s' : socket.State) (bytes : Text)
      → socket.recv n s ≡ (some bytes, s')
      → (length bytes ≤ n) × (coming s ≡ bytes ++ coming s')
  pub recv_none :
      (n : ℕ) (s s' : socket.State) → socket.recv n s ≡ (none, s') → coming s' ≡ coming s

-- The result of a call by its parts.
call-cases {ℓ κ} :
    {A : Type ℓ} {B : Type κ} (r : Option A × B)
    → ((r.0 ≡ none) × (r ≡ (none, r.1))) ⊎ ((a : A) × (r.0 ≡ some a) × (r ≡ (some a, r.1)))
call-cases (none, b) = inl (refl, refl)
call-cases (some a, b) = inr (a, refl, refl)

module _ (socket : StreamSocket) (laws : StreamLaws socket) where
  open socket use {State}

  -- The loop ended. It gave a prefix of the bytes, and all of them exactly if it says so.
  abbrev pub Sent : Text → State → Option (Bool × State) → Type 0
  Sent bytes s r =
      (took left : Text) × (s' : State) × (r ≡ some (is_empty left, s'))
      × (bytes ≡ took ++ left)
      × (laws.given s' ≡ laws.given s ++ took)

  nothing-Sent :
      (c : ℕ) (cs : Text) (s s' : State) (r : Option (Bool × State))
      → r ≡ some (false, s')
      → laws.given s' ≡ laws.given s
      → Sent (c ∷ cs) s r
  nothing-Sent c cs s s' r e same =
      ([], c ∷ cs, s', e, refl, same ∙ sym (append-nil (laws.given s)))

  more-Sent :
      (n : ℕ) (bytes : Text) (s s' : State) (r : Option (Bool × State))
      → laws.given s' ≡ laws.given s ++ take n bytes
      → Sent (drop n bytes) s' r
      → Sent bytes s r
  more-Sent n bytes s s' r gives (took, left, s'', e, split, later) = (
    take n bytes ++ took,
    left,
    s'',
    e,
    sym (take-drop n bytes)
        ∙ ap (λ x. take n bytes ++ x) split
        ∙ sym (append_assoc (take n bytes) took left),
    later ∙ ap (λ x. x ++ took) gives ∙ append_assoc (laws.given s) (take n bytes) took,
  )

  pub send_loop-more :
      (fuel c n : ℕ) (cs : Text) (s : State)
      → (socket.send (c ∷ cs) s).0 ≡ some (suc n)
      → send_loop socket (suc fuel) (c ∷ cs) s
        ≡ send_loop socket fuel (drop n cs) (socket.send (c ∷ cs) s).1
  unfolding send_loop
  send_loop-more fuel c n cs s h = ground arith

  send_loop-Sent :
      (fuel : ℕ) (bytes : Text) (s : State)
      → length bytes ≤ fuel
      → Sent bytes s (send_loop socket fuel bytes s)
  unfolding send_loop
  send_loop-Sent fuel [] s h = ([], [], s, refl, refl, sym (append-nil (laws.given s)))
  send_loop-Sent zero (c ∷ cs) s h = absurd (omega arith)
  send_loop-Sent (suc fuel) (c ∷ cs) s h = elim (call-cases (socket.send (c ∷ cs) s)) [
    | inl (failed, e) ↦
        nothing-Sent c cs s (socket.send (c ∷ cs) s).1 _ (rw (failed, send_loop) refl)
          (laws.send_none (c ∷ cs) s _ e)
    | inr (zero, took, e) ↦
        nothing-Sent c cs s (socket.send (c ∷ cs) s).1 _ (rw (took, send_loop) refl)
          ((laws.send_some (c ∷ cs) s _ 0 e).1 ∙ append-nil _)
    | inr (suc n, took, e) ↦
        more-Sent (suc n) (c ∷ cs) s (socket.send (c ∷ cs) s).1 _
          (laws.send_some (c ∷ cs) s _ (suc n) e).1
          (rw (send_loop-more fuel c n cs s took)
            (send_loop-Sent fuel (drop n cs) _ (omega (arith, length-drop n cs))))
  ]

  -- The loop ended with all the bytes that were asked for, which came next, or it failed and lost
  -- fewer of them.
  abbrev pub Received : ℕ → State → Option (Option Text × State) → Type 0
  Received rem s r =
      (taken : Text) × (s' : State) × (r
        ≡ some (if length taken == rem then some taken else none, s'))
      × (length taken ≤ rem)
      × (laws.coming s ≡ taken ++ laws.coming s')

  more-Received :
      (b : ℕ) (bs : Text) (rem : ℕ) (s s' : State) (r : Option (Option Text × State))
      → (length (b ∷ bs) ≤ suc rem) × (laws.coming s ≡ b ∷ bs ++ laws.coming s')
      → Received (rem - length bs) s' r
      → Received (suc rem) s (prepend socket (b ∷ bs) r)
  unfolding prepend
  more-Received b bs rem s s' r (fits, next) (taken, s'', e, few, split) = (
    b ∷ bs ++ taken,
    s'',
    ap (prepend socket (b ∷ bs)) e ∙ ground (arith, length-append bs taken),
    omega (arith, length-append bs taken),
    next ∙ ap (λ x. b ∷ bs ++ x) split ∙ sym (append_assoc (b ∷ bs) taken (laws.coming s'')),
  )

  recv_loop-none :
      (fuel rem : ℕ) (s : State)
      → ((socket.recv (suc rem) s).0 ≡ none) ⊎ ((socket.recv (suc rem) s).0 ≡ some [])
      → recv_loop socket (suc fuel) (suc rem) s
        ≡ some (if 0 == suc rem then some [] else none, (socket.recv (suc rem) s).1)
  unfolding recv_loop
  recv_loop-none fuel rem s h = ground arith

  pub recv_loop-more :
      (fuel rem b : ℕ) (bs : Text) (s : State)
      → (socket.recv (suc rem) s).0 ≡ some (b ∷ bs)
      → recv_loop socket (suc fuel) (suc rem) s
        ≡ prepend socket
            (b ∷ bs)
            (recv_loop socket fuel (rem - length bs) (socket.recv (suc rem) s).1)
  unfolding recv_loop
  recv_loop-more fuel rem b bs s h = ground arith

  pub recv_loop-Received :
      (fuel rem : ℕ) (s : State) → rem ≤ fuel → Received rem s (recv_loop socket fuel rem s)
  unfolding recv_loop
  recv_loop-Received fuel zero s h = ([], s, refl, omega arith, refl)
  recv_loop-Received zero (suc rem) s h = absurd (omega arith)
  recv_loop-Received (suc fuel) (suc rem) s h = elim (call-cases (socket.recv (suc rem) s)) [
    | inl (failed, e) ↦ (
      [],
      (socket.recv (suc rem) s).1,
      recv_loop-none fuel rem s (inl failed),
      omega arith,
      sym (laws.recv_none (suc rem) s _ e),
    )
    | inr ([], got, e) ↦ (
      [],
      (socket.recv (suc rem) s).1,
      recv_loop-none fuel rem s (inr got),
      omega arith,
      (laws.recv_some (suc rem) s _ [] e).1,
    )
    | inr (b ∷ bs, got, e) ↦ rw (recv_loop-more fuel rem b bs s got) (
        more-Received b bs rem s (socket.recv (suc rem) s).1 _
          (laws.recv_some (suc rem) s _ (b ∷ bs) e)
          (recv_loop-Received fuel (rem - length bs) _ (omega arith)))
  ]

  -- trySendMsg ends on any stream socket, after at most 96 calls of send: what it gave the socket is
  -- the beginning of the message's 96 bytes in their order, and the whole of them exactly if it
  -- returns true.
  pub try_send_msg-Sent :
      (msg : ApiMsg) (s : State) → IsWire msg → Sent (encode msg) s (try_send_msg socket msg s)
  unfolding try_send_msg
  try_send_msg-Sent msg s v =
      send_loop-Sent msg_size (encode msg) s (omega (arith, length-encode msg v))

  -- What recvMsg makes of a stream on which a message comes next.
  abbrev pub Framed : ApiMsg → Text → State → Type 0
  Framed msg rest s =
      (s' : State) × (((recv_msg socket s ≡ some (some msg, s')) × (laws.coming s' ≡ rest))
        ⊎ (recv_msg socket s ≡ some (none, s')))

  pub framed_by :
      (msg : ApiMsg) (rest taken : Text) (s s' : State)
      → IsWire msg
      → laws.coming s ≡ encode msg ++ rest
      → laws.coming s ≡ taken ++ laws.coming s'
      → length taken ≡ msg_size
      → (taken ≡ encode msg) × (laws.coming s' ≡ rest)
  framed_by msg rest taken s s' v comes split size =
      let whole = length-encode msg v in
      let same : taken ++ laws.coming s' ≡ encode msg ++ rest = sym split ∙ comes in
      (
        sym (take-append msg_size taken (laws.coming s') size)
            ∙ ap (take msg_size) same
            ∙ take-append msg_size (encode msg) rest whole,
        sym (drop-append msg_size taken (laws.coming s') size)
            ∙ ap (drop msg_size) same
            ∙ drop-append msg_size (encode msg) rest whole,
      )

  -- If a message is what comes next on the stream, recvMsg ends after at most 96 calls of recv, and
  -- either gives exactly that message and leaves the stream at the first byte after it, or returns
  -- false.
  pub recv_msg-Framed :
      (msg : ApiMsg) (rest : Text) (s : State)
      → IsWire msg
      → laws.coming s ≡ encode msg ++ rest
      → Framed msg rest s
  unfolding recv_msg
  recv_msg-Framed msg rest s v comes =
      let (taken, s', e, few, split) = recv_loop-Received msg_size msg_size s (omega arith) in
      (
        s',
        elim (Bool-cases (length taken == msg_size)) [
          | inr short ↦ inr (ap (decoded socket) e ∙ rw short refl)
          | inl full ↦
              let (same, left) = framed_by msg rest taken s s' v comes split (==_sound _ _ full) in
              inl (
                ap (decoded socket) e
                    ∙ rw (full, same) (ap (λ x. some (some x, s')) (decode-encode msg v)),
                left,
              )
        ],
      )
