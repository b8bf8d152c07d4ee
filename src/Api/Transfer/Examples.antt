-- ===== src/Api/Transfer/Examples.antt =====
-- A socket that moves at most 40 bytes at a time.
use wifi_offload_rpi.Prelude.{
  Text, [], ap, arith, codes, drop, if◌then◌else◌, length, length-take_le, ltb, negsuc, none, pos,
  refl, some, sym, take, take-drop, ℕ, ◌++◌, ◌∙◌, ◌∷◌, ◌≡◌, ◌≤◌,
}
use wifi_offload_rpi.Api.Wire.{ApiMsg, empty_msg, to_array}
use wifi_offload_rpi.Api.Wire.Frame.{IsWire, decode, encode}
use wifi_offload_rpi.Api.Transfer.{StreamSocket, recv_msg, try_send_msg}
use wifi_offload_rpi.Api.Transfer.Total.{
  Framed, Sent, StreamLaws, recv_msg-Framed, try_send_msg-Sent,
}

-- What was given and what is coming.
abbrev pub Ends : Type 0
Ends = Text × Text

abbrev pub upto40 : ℕ → ℕ
upto40 n = if ltb n 40 then n else 40

abbrev pub pipe : StreamSocket
pipe = record {
  State = Ends;
  send = λ bytes (given, coming).
      (some (upto40 (length bytes)), (given ++ take (upto40 (length bytes)) bytes, coming));
  recv = λ n (given, coming). (some (take (upto40 n) coming), (given, drop (upto40 n) coming));
}

length-take_upto : (n : ℕ) (xs : Text) → length (take (upto40 n) xs) ≤ n
length-take_upto n xs = ground (arith, length-take_le (upto40 n) xs)

pub pipe_recv :
    (n : ℕ) (s s' : Ends) (bytes : Text)
    → pipe.recv n s ≡ (some bytes, s')
    → (length bytes ≤ n) × (s.1 ≡ bytes ++ s'.1)
pipe_recv n s s' bytes e =
    let first : some (take (upto40 n) s.1) ≡ some bytes = ap (λ p. p.0) e in
    let same : take (upto40 n) s.1 ≡ bytes = cc in
    let left : drop (upto40 n) s.1 ≡ s'.1 = ap (λ p. p.1.1) e in
    rw (← same, ← left) (length-take_upto n s.1, sym (take-drop (upto40 n) s.1))

pub pipe_send :
    (bytes : Text) (s s' : Ends) (n : ℕ)
    → pipe.send bytes s ≡ (some n, s')
    → (n ≤ length bytes) × (s'.0 ≡ s.0 ++ take n bytes)
pipe_send bytes s s' n e =
    let first : some (upto40 (length bytes)) ≡ some n = ap (λ p. p.0) e in
    let same : upto40 (length bytes) ≡ n = cc in
    (ground arith, sym (ap (λ p. p.1.0) e) ∙ ap (λ k. s.0 ++ take k bytes) same)

unfoldable pub pipe_laws : StreamLaws pipe
pipe_laws = record {
  given = λ s. s.0;
  coming = λ s. s.1;
  send_some = λ bytes s s' n e. pipe_send bytes s s' n e;
  send_none =
      λ bytes s s' e. let first : some (upto40 (length bytes)) ≡ none = ap (λ p. p.0) e in cc;
  recv_some = λ n s s' bytes e. pipe_recv n s s' bytes e;
  recv_none = λ n s s' e. let first : some (take (upto40 n) s.1) ≡ none = ap (λ p. p.0) e in cc;
}

abbrev pub hello : ApiMsg
hello = record empty_msg {
  type = 1;
  pid = pos 42;
  rssi = negsuc 59;
  class_id = to_array (codes "lte_b2c");
}

pub hello-IsWire : IsWire hello
unfolding to_array
hello-IsWire = record {
  type_fits = omega arith;
  error_fits = omega arith;
  handle_fits = omega arith;
  pid_fits = omega arith;
  rssi_fits = omega arith;
  state_fits = omega arith;
  pad_fits = omega arith;
  class_id_fits = refl;
  iface_fits = refl;
}

try_send_msg-Sent_example :
    Sent pipe pipe_laws (encode hello) ([], []) (try_send_msg pipe hello ([], []))
try_send_msg-Sent_example = try_send_msg-Sent pipe pipe_laws hello ([], []) hello-IsWire

recv_msg-Framed_example : Framed pipe pipe_laws hello (1 ∷ 2 ∷ []) ([], encode hello ++ 1 ∷ 2 ∷ [])
unfolding pipe_laws
recv_msg-Framed_example =
    recv_msg-Framed pipe pipe_laws hello (1 ∷ 2 ∷ []) ([], encode hello ++ 1 ∷ 2 ∷ []) hello-IsWire
      refl

-- In three parts of 40, 40 and 16 bytes.
hello_received :
    recv_msg pipe ([], encode hello ++ 1 ∷ 2 ∷ []) ≡ some (some hello, ([], 1 ∷ 2 ∷ []))
unfolding recv_msg encode decode to_array
hello_received = refl
