-- ===== src/Api/Session/Examples.antt =====
-- A client that registers, asks for the state, and sends a message of an unknown type.
use wifi_offload_rpi.Prelude.{
  Bool-cases, List, Text, [], ap, arith, codes, false, if◌then◌else◌, inl, inr, length,
  length-take_le, ltb, refl, some, suc, sym, take, text_eq, true, ℕ, ◌<◌, ◌^◌, ◌∙◌, ◌∷◌, ◌≡◌,
}
use wifi_offload_rpi.Types.{PathClassConfig, default_rssi}
use wifi_offload_rpi.Api.Session.{serve_client}
use wifi_offload_rpi.Api.Session.Short.{serve_client_short}
use wifi_offload_rpi.Api.Session.Answers.{
  IsConversation, frames, promised, serve_clients-IsConversation, server_after,
}
use wifi_offload_rpi.Api.Wire.Frame.{IsWire, encode}
use wifi_offload_rpi.Api.Server.{
  Env, find_class, handle_client, handle_register, new_server, remove_client,
}
use wifi_offload_rpi.Api.Server.Replies.{expected}
use wifi_offload_rpi.Api.Wire.{ApiMsg, array_string, to_array}
use wifi_offload_rpi.Api.Transfer.Examples.{Ends, hello, hello-IsWire, pipe, pipe_laws, upto40}
use wifi_offload_rpi.Api.Transfer.Reliable.{ReliableLaws}
use wifi_offload_rpi.Api.Session.Widths.{new_server-IsSized}
use mathlib.Core.List.{append-nil}

upto40-suc : (n : ℕ) → (k : ℕ) × (upto40 (suc n) ≡ suc k)
upto40-suc n = elim (Bool-cases (ltb (suc n) 40)) [
  | inl small ↦ (n, rw (small, if◌then◌else◌) refl)
  | inr large ↦ (39, rw (large, if◌then◌else◌) refl)
]

pipe_recv_gives :
    (n b : ℕ) (bs : Text) (s : Ends)
    → s.1 ≡ b ∷ bs
    → (c : ℕ) × (cs : Text) × (pipe.recv (suc n) s ≡ (some (c ∷ cs), (pipe.recv (suc n) s).1))
pipe_recv_gives n b bs s e =
    let (k, size) = upto40-suc n in
    let first : take (upto40 (suc n)) s.1 ≡ b ∷ take k bs =
      ap (λ m. take m s.1) size ∙ ap (take (suc k)) e in
    (b, take k bs, λ i. (some (first i), (pipe.recv (suc n) s).1))

pipe_reliable : ReliableLaws pipe pipe_laws
unfolding pipe_laws
pipe_reliable = record {
  send_takes = λ b bs s.
      let (k, e) = upto40-suc (length bs) in (k, λ i. (some (e i), (pipe.send (b ∷ bs) s).1));
  recv_gives = λ n b bs s e. pipe_recv_gives n b bs s e;
  send_coming = λ bytes s. refl;
  recv_given = λ n s. refl;
}

abbrev lte : PathClassConfig
lte = record {
  id = codes "lte_b2c";
  classid = 0x00100002;
  cgroup_path = codes "/sys/fs/cgroup/net_cls/lte_b2c";
  interfaces = codes "wwan0" ∷ [];
  mptcp_enabled = false;
  routing_table = 200;
  mark = 0x20;
  strict_isolation = false;
  rssi = default_rssi;
}

abbrev env : Env
env = record { can_open = λ path. true; reachable = λ fd. true }

abbrev query : ApiMsg
query = record hello { type = 5 }

abbrev odd : ApiMsg
odd = record hello { type = 9 }

abbrev requests : List ApiMsg
requests = hello ∷ query ∷ odd ∷ []

retyped-IsWire : (type : ℕ) → type < 2 ^ 32 → IsWire (record hello { type = type })
retyped-IsWire type small = record {
  type_fits = small;
  error_fits = hello-IsWire.error_fits;
  handle_fits = hello-IsWire.handle_fits;
  pid_fits = hello-IsWire.pid_fits;
  rssi_fits = hello-IsWire.rssi_fits;
  state_fits = hello-IsWire.state_fits;
  pad_fits = hello-IsWire.pad_fits;
  class_id_fits = hello-IsWire.class_id_fits;
  iface_fits = hello-IsWire.iface_fits;
}

-- The answers' types and errors: both requests are met, and the third is an invalid message.
three_promised : promised env 7 requests (new_server (lte ∷ [])) ≡ (2, 0) ∷ (6, 0) ∷ (2, 1) ∷ []
unfolding promised expected new_server find_class text_eq array_string to_array handle_client
    handle_register
three_promised = refl

serve_clients-IsConversation_example :
    IsConversation pipe pipe_laws pipe_reliable env 7 requests []
      (new_server (lte ∷ []))
      ([], frames requests)
unfolding pipe_laws
serve_clients-IsConversation_example =
    serve_clients-IsConversation pipe pipe_laws pipe_reliable env 7 requests []
      (new_server (lte ∷ [])) ([], frames requests)
      (hello-IsWire, (retyped-IsWire 5 (omega arith), (retyped-IsWire 9 (omega arith), tt)))
      (new_server-IsSized (lte ∷ [])) (sym (append-nil (frames requests)))

-- The client is registered, and 40 bytes of its next message have come.
serve_client_short_example :
    (s' : Ends) × (serve_client pipe env 7
        (server_after env 7 (hello ∷ []) (new_server (lte ∷ [])))
        ([], take 40 (encode hello))
      ≡ some
          ((remove_client env 7 (server_after env 7 (hello ∷ []) (new_server (lte ∷ [])))).0, s'))
unfolding pipe_laws
serve_client_short_example =
    serve_client_short pipe pipe_laws env 7
      (server_after env 7 (hello ∷ []) (new_server (lte ∷ []))) ([], take 40 (encode hello))
      (omega (arith, length-take_le 40 (encode hello)))
