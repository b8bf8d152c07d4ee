-- ===== src/Api/Session/Widths.antt =====
-- The messages that the handlers of api/consumer_api_server.cpp send: their fields have the widths
-- of ApiMsg.
use wifi_offload_rpi.Prelude.{
  All, Bool-cases, List, Option-cases, Text, [], ap, arith, find_if, if◌then◌else◌, inl, inr,
  length, map, pos, refl, some, ℕ, ℤ, ◌++◌, ◌<◌, ◌==◌, ◌^◌, ◌∷◌, ◌≡◌,
}
use wifi_offload_rpi.Types.{PathClassConfig, PathState, idle, state_code}
use wifi_offload_rpi.Api.Server.{
  ClassState, Effect, Env, Server, assign_cgroup_pid, closed, epoll_removed, find_class,
  handle_client, handle_query_current, handle_register, handle_unregister, has_class, has_handle,
  new_class_state, new_server, register_known, remove_cgroup_pid, send, wrote,
}
use wifi_offload_rpi.Api.Wire.{
  ApiMsg, MsgType, ack_of, array_size, array_string, length-to_array, msg_code, query_ack,
  register_ack, to_array, unregister_ack, zeros,
}
use wifi_offload_rpi.Api.Server.Cache.{handle_client-classes}
use wifi_offload_rpi.Api.Wire.Frame.{IsInt32, IsWire}
use mathlib.Core.Path.{subst}

-- The messages that are sent, oldest first.
abbrev pub sent_msgs : List Effect → List ApiMsg
sent_msgs [] = []
sent_msgs (send fd msg ∷ es) = msg ∷ sent_msgs es
sent_msgs (wrote path pid ∷ es) = sent_msgs es
sent_msgs (epoll_removed fd ∷ es) = sent_msgs es
sent_msgs (closed fd ∷ es) = sent_msgs es

-- The handles and the cached signal strengths have their widths.
pub record IsSized (s : Server) : Type 0 where
  pub handle_sized : s.next_handle < 2 ^ 64
  pub rssi_sized : All (λ cls. IsInt32 cls.rssi) s.class_states

-- A whole acknowledgement.
abbrev ack_with : MsgType → ℕ → ℕ → ℤ → ℕ → Text → Text → ApiMsg
ack_with type error handle rssi state class_id iface = record (ack_of type) {
  error = error;
  handle = handle;
  rssi = rssi;
  state = state;
  class_id = class_id;
  iface = iface;
}

msg_code-lt : (type : MsgType) → msg_code type < 2 ^ 32
msg_code-lt type = ground arith

state_code-lt : (state : PathState) → state_code state < 2 ^ 32
state_code-lt state = ground arith

ack_with-IsWire :
    (type : MsgType) (error handle : ℕ) (rssi : ℤ) (state : PathState) (class_id iface : Text)
    → error < 2 ^ 32
    → handle < 2 ^ 64
    → IsInt32 rssi
    → length class_id ≡ array_size
    → length iface ≡ array_size
    → IsWire (ack_with type error handle rssi (state_code state) class_id iface)
ack_with-IsWire type error handle rssi state class_id iface e h r c i = record {
  type_fits = msg_code-lt type;
  error_fits = e;
  handle_fits = h;
  pid_fits = omega arith;
  rssi_fits = r;
  state_fits = state_code-lt state;
  pad_fits = omega arith;
  class_id_fits = c;
  iface_fits = i;
}

sent_msgs-append : (xs ys : List Effect) → sent_msgs (xs ++ ys) ≡ sent_msgs xs ++ sent_msgs ys
sent_msgs-append [] ys = refl
sent_msgs-append (send fd msg ∷ xs) ys = ap (◌∷◌ msg) (sent_msgs-append xs ys)
sent_msgs-append (wrote path pid ∷ xs) ys = sent_msgs-append xs ys
sent_msgs-append (epoll_removed fd ∷ xs) ys = sent_msgs-append xs ys
sent_msgs-append (closed fd ∷ xs) ys = sent_msgs-append xs ys

assign_cgroup_pid-sent_msgs :
    (env : Env) (id : Text) (pid : ℤ) (s : Server) → sent_msgs (assign_cgroup_pid env id pid s) ≡ []
unfolding assign_cgroup_pid
assign_cgroup_pid-sent_msgs env id pid s = ground arith

remove_cgroup_pid-sent_msgs :
    (env : Env) (id : Text) (pid : ℤ) (s : Server) → sent_msgs (remove_cgroup_pid env id pid s) ≡ []
unfolding remove_cgroup_pid
remove_cgroup_pid-sent_msgs env id pid s = ground arith

some-inj : {A : Type 0} {a b : A} → some a ≡ some b → a ≡ b
some-inj e = cc

find_class-rssi :
    (id : Text) (cs : List ClassState) (c : ClassState)
    → find_class id cs ≡ some c
    → All (λ cls. IsInt32 cls.rssi) cs
    → IsInt32 c.rssi
unfolding find_class
find_class-rssi id [] c e h = cc
find_class-rssi id (x ∷ cs) c e h = elim (Bool-cases (has_class id x)) [
  | inl found ↦ subst (λ cls. IsInt32 cls.rssi) (some-inj (rw (found, if◌then◌else◌) at e)) h.0
  | inr differs ↦ find_class-rssi id cs c (rw (differs, if◌then◌else◌) at e) h.1
]

length-zeros_all : length (zeros array_size) ≡ array_size
unfolding zeros
length-zeros_all = refl

abbrev IsSendable : List Effect → Type 0
IsSendable es = All IsWire (sent_msgs es)

handle_register-IsSendable :
    (env : Env) (fd : ℕ) (msg : ApiMsg) (s : Server)
    → IsSized s
    → IsSendable (handle_register env fd msg s).1
unfolding handle_register
handle_register-IsSendable env fd msg s z =
    elim (Option-cases (find_class (array_string msg.class_id) s.class_states)) [
      | inl e ↦
          rw (e, handle_register)
            (
              ack_with-IsWire register_ack 2 0 (pos 0) idle (zeros array_size) (zeros array_size)
                  (omega arith) (omega arith) (omega arith) length-zeros_all length-zeros_all,
              tt,
            )
      | inr (cls, e) ↦
          rw (e, handle_register, sent_msgs-append, assign_cgroup_pid-sent_msgs)
            (
              ack_with-IsWire register_ack 0 s.next_handle cls.rssi cls.state
                  (to_array (array_string msg.class_id)) (to_array cls.active_iface) (omega arith)
                  z.handle_sized (find_class-rssi _ _ cls e z.rssi_sized) (length-to_array _)
                  (length-to_array _),
              tt,
            )
    ]

handle_unregister-IsSendable :
    (env : Env) (fd : ℕ) (msg : ApiMsg) (s : Server)
    → IsWire msg
    → IsSendable (handle_unregister env fd msg s).1
unfolding handle_unregister
handle_unregister-IsSendable env fd msg s v =
    elim (Option-cases (find_if (has_handle msg.handle) s.registry)) [
      | inl e ↦
          rw (e, handle_unregister)
            (
              ack_with-IsWire unregister_ack 1 msg.handle (pos 0) idle (zeros array_size)
                  (zeros array_size) (omega arith) v.handle_fits (omega arith) length-zeros_all
                  length-zeros_all,
              tt,
            )
      | inr (x, e) ↦
          rw (e, handle_unregister, sent_msgs-append, remove_cgroup_pid-sent_msgs)
            (
              ack_with-IsWire unregister_ack 0 msg.handle (pos 0) idle (zeros array_size)
                  (zeros array_size) (omega arith) v.handle_fits (omega arith) length-zeros_all
                  length-zeros_all,
              tt,
            )
    ]

handle_query_current-IsSendable :
    (fd : ℕ) (msg : ApiMsg) (s : Server) → IsSized s → IsSendable (handle_query_current fd msg s)
unfolding handle_query_current
handle_query_current-IsSendable fd msg s z =
    elim (Option-cases (find_class (array_string msg.class_id) s.class_states)) [
      | inl e ↦
          rw (e, handle_query_current)
            (
              ack_with-IsWire query_ack 2 0 (pos 0) idle (zeros array_size) (zeros array_size)
                  (omega arith) (omega arith) (omega arith) length-zeros_all length-zeros_all,
              tt,
            )
      | inr (cls, e) ↦
          rw (e, handle_query_current)
            (
              ack_with-IsWire query_ack 0 0 cls.rssi cls.state
                  (to_array (array_string msg.class_id)) (to_array cls.active_iface) (omega arith)
                  (omega arith) (find_class-rssi _ _ cls e z.rssi_sized) (length-to_array _)
                  (length-to_array _),
              tt,
            )
    ]

-- What the server answers to a message fits the wire.
pub handle_client-IsSendable :
    (env : Env) (fd : ℕ) (msg : ApiMsg) (s : Server)
    → IsWire msg
    → IsSized s
    → All IsWire (sent_msgs (handle_client env fd (some msg) s).1)
unfolding handle_client
handle_client-IsSendable env fd msg s v z = elim (Bool-cases (msg.type == 1)) [
  | inl r ↦ rw (r, handle_client) (handle_register-IsSendable env fd msg s z)
  | inr r ↦ elim (Bool-cases (msg.type == 3)) [
    | inl u ↦ rw (r, u, handle_client) (handle_unregister-IsSendable env fd msg s v)
    | inr u ↦ elim (Bool-cases (msg.type == 5)) [
      | inl q ↦ rw (r, u, q, handle_client) (handle_query_current-IsSendable fd msg s z)
      | inr q ↦
          rw (r, u, q, handle_client)
            (
              ack_with-IsWire register_ack 1 0 (pos 0) idle (zeros array_size) (zeros array_size)
                  (omega arith) (omega arith) (omega arith) length-zeros_all length-zeros_all,
              tt,
            )
    ]
  ]
]

handle_client-handle_sized :
    (env : Env) (fd : ℕ) (msg : ApiMsg) (s : Server)
    → s.next_handle < 2 ^ 64
    → (handle_client env fd (some msg) s).0.next_handle < 2 ^ 64
unfolding handle_client handle_register handle_unregister register_known
handle_client-handle_sized env fd msg s h = ground arith

pub handle_client-IsSized :
    (env : Env) (fd : ℕ) (msg : ApiMsg) (s : Server)
    → IsSized s
    → IsSized (handle_client env fd (some msg) s).0
handle_client-IsSized env fd msg s z = record {
  handle_sized = handle_client-handle_sized env fd msg s z.handle_sized;
  rssi_sized = rw (handle_client-classes env fd (some msg) s) z.rssi_sized;
}

pub new_server-IsSized : (classes : List PathClassConfig) → IsSized (new_server classes)
unfolding new_server new_class_state
new_server-IsSized classes = record { handle_sized = omega arith; rssi_sized = all_zero classes }
  where
    all_zero : (cs : List PathClassConfig) → All (λ cls. IsInt32 cls.rssi) (map new_class_state cs)
    all_zero [] = tt
    all_zero (c ∷ cs) = (omega arith, all_zero cs)
