-- ===== src/Api/Server.antt =====
-- api/consumer_api_server.cpp: the server's state and its handlers. What a handler does outside its
-- state is a list of effects, oldest first. Descriptors are numbers; `Env` answers for the system.
pub mod Effects
pub mod Registry
pub mod Invariant
pub mod Broadcast
pub mod Cache
pub mod Replies
pub mod Registration
use wifi_offload_rpi.Prelude.{
  ℕ, ◌+◌, ◌%◌, ◌^◌, Bool, not, ◌&&◌, Option, none, some, List, [], ◌∷◌, ◌++◌, map, ℤ, pos, Text,
  codes, text_eq, ◌==◌, if◌then◌else◌, keep, find_if, erase_if,
}
use wifi_offload_rpi.Types.{
  PathState, idle, state_code, PathClassConfig, api_error_code, invalid_message, unknown_class_id,
}
use wifi_offload_rpi.Api.Wire.{
  ApiMsg, register, register_ack, unregister, unregister_ack, query_current, query_ack, path_event,
  msg_code, ack_of, array_string, to_array,
}

pub record ConsumerEntry : Type 0 where
  pub fd : ℕ
  pub pid : ℤ
  pub handle : ℕ
  pub class_id : Text

pub record ClassState : Type 0 where
  pub class_id : Text
  pub cgroup_path : Text
  pub state : PathState
  pub active_iface : Text
  pub rssi : ℤ

pub record Server : Type 0 where
  pub class_states : List ClassState
  pub registry : List ConsumerEntry
  pub next_handle : ℕ

-- `send` is a run of the send loop; `wrote` appends a process to a tasks file.
pub data Effect : Type 0 where
  send : ℕ → ApiMsg → Effect
  wrote : Text → ℤ → Effect
  epoll_removed closed : ℕ → Effect

-- Which files can be opened for writing, and which descriptors take a whole message.
pub record Env : Type 0 where
  pub can_open : Text → Bool
  pub reachable : ℕ → Bool

unfoldable pub new_class_state : PathClassConfig → ClassState
new_class_state cls = record {
  class_id = cls.id;
  cgroup_path = cls.cgroup_path;
  state = idle;
  active_iface = [];
  rssi = pos 0;
}

unfoldable pub new_server : List PathClassConfig → Server
unfolding new_class_state
new_server classes = record {
  class_states = map new_class_state classes;
  registry = [];
  next_handle = 1;
}

abbrev pub has_class : Text → ClassState → Bool
has_class id cs = text_eq cs.class_id id

unfoldable pub find_class : Text → List ClassState → Option ClassState
find_class id = find_if (has_class id)

-- A write through the pointer that findClass returns.
unfoldable pub update_class : Text → (ClassState → ClassState) → List ClassState → List ClassState
update_class id f [] = []
update_class id f (cs ∷ rest) = if has_class id cs then f cs ∷ rest else cs ∷ update_class id f rest

write_pid : Env → Text → ℤ → List Effect
write_pid env path pid = if env.can_open path then wrote path pid ∷ [] else []

abbrev pub cgroup_root : Text
cgroup_root = codes "/sys/fs/cgroup/net_cls/tasks"

unfoldable pub assign_cgroup_pid : Env → Text → ℤ → Server → List Effect
unfolding write_pid
assign_cgroup_pid env class_id pid s = elim (find_class class_id s.class_states) [
  | none ↦ []
  | some cls ↦ write_pid env (cls.cgroup_path ++ codes "/tasks") pid
]

unfoldable pub remove_cgroup_pid : Env → Text → ℤ → Server → List Effect
unfolding write_pid
remove_cgroup_pid env class_id pid s = elim (find_class class_id s.class_states) [
  | none ↦ []
  | some cls ↦ write_pid env cgroup_root pid
]

abbrev pub has_fd : ℕ → ConsumerEntry → Bool
has_fd fd e = e.fd == fd

abbrev pub has_handle : ℕ → ConsumerEntry → Bool
has_handle handle e = e.handle == handle

unfoldable pub register_known : Env → ℕ → ApiMsg → Text → ClassState → Server → Server × List Effect
register_known env fd msg class_id cls s =
    let entry : ConsumerEntry = record {
      fd = fd;
      pid = msg.pid;
      handle = s.next_handle;
      class_id = class_id;
    } in
    (
      record s {
        registry = keep (λ e. not (has_fd fd e)) s.registry ++ entry ∷ [];
        next_handle = (s.next_handle + 1) % 2 ^ 64;
      },
      assign_cgroup_pid env class_id msg.pid s
          ++ send fd (record (ack_of register_ack) {
            handle = s.next_handle;
            class_id = to_array class_id;
            state = state_code cls.state;
            iface = to_array cls.active_iface;
            rssi = cls.rssi;
          })
            ∷ [],
    )

unfoldable pub handle_register : Env → ℕ → ApiMsg → Server → Server × List Effect
unfolding register_known
handle_register env fd msg s =
    let class_id = array_string msg.class_id in
    elim (find_class class_id s.class_states) [
      | none ↦ (
        s,
        send fd (record (ack_of register_ack) { error = api_error_code unknown_class_id }) ∷ [],
      )
      | some cls ↦ register_known env fd msg class_id cls s
    ]

unfoldable pub handle_unregister : Env → ℕ → ApiMsg → Server → Server × List Effect
handle_unregister env fd msg s =
    let ack = record (ack_of unregister_ack) { handle = msg.handle } in
    elim (find_if (has_handle msg.handle) s.registry) [
      | none ↦ (s, send fd (record ack { error = api_error_code invalid_message }) ∷ [])
      | some e ↦ (
        record s { registry = erase_if (has_handle msg.handle) s.registry },
        remove_cgroup_pid env e.class_id e.pid s ++ send fd ack ∷ [],
      )
    ]

unfoldable pub handle_query_current : ℕ → ApiMsg → Server → List Effect
handle_query_current fd msg s =
    let class_id = array_string msg.class_id in
    elim (find_class class_id s.class_states) [
      | none ↦ send fd (record (ack_of query_ack) { error = api_error_code unknown_class_id }) ∷ []
      | some cls ↦
          send fd (record (ack_of query_ack) {
            state = state_code cls.state;
            rssi = cls.rssi;
            class_id = to_array class_id;
            iface = to_array cls.active_iface;
          })
          ∷ []
    ]

-- The registry part of removeClient and of broadcastPathEvent.
unfoldable pub drop_consumer : Env → ℕ → Server → Server × List Effect
drop_consumer env fd s = elim (find_if (has_fd fd) s.registry) [
  | none ↦ (s, [])
  | some e ↦ (
    record s { registry = erase_if (has_fd fd) s.registry },
    remove_cgroup_pid env e.class_id e.pid s,
  )
]

unfoldable pub remove_client : Env → ℕ → Server → Server × List Effect
unfolding drop_consumer
remove_client env fd s =
    let (s', effects) = drop_consumer env fd s in (s', epoll_removed fd ∷ closed fd ∷ effects)

-- `none`: recvMsg failed.
unfoldable pub handle_client : Env → ℕ → Option ApiMsg → Server → Server × List Effect
handle_client env fd none s = remove_client env fd s
handle_client env fd (some msg) s =
    if msg.type == msg_code register
    then handle_register env fd msg s
    else if msg.type == msg_code unregister
    then handle_unregister env fd msg s
    else if msg.type == msg_code query_current
    then (s, handle_query_current fd msg s)
    else (s, send fd (record (ack_of register_ack) { error = api_error_code invalid_message }) ∷ [])

state_of : Option ClassState → PathState
state_of none = idle
state_of (some cls) = cls.state

unfoldable pub query_current_state : Text → Server → PathState
unfolding state_of
query_current_state class_id s = state_of (find_class class_id s.class_states)

unfoldable pub update_current_state : Text → PathState → Server → Server
update_current_state class_id state s = record s {
  class_states = update_class class_id (λ cls. record cls { state = state }) s.class_states;
}

-- The loop over `toRemove`.
unfoldable pub remove_dead : Env → List ℕ → Server → Server × List Effect
remove_dead env [] s = (s, [])
remove_dead env (fd ∷ fds) s =
    let (s', effects) = drop_consumer env fd s in
    let (s'', later) = remove_dead env fds s' in
    (s'', effects ++ (epoll_removed fd ∷ closed fd ∷ later))

abbrev pub is_for : Text → ConsumerEntry → Bool
is_for class_id e = text_eq e.class_id class_id

abbrev pub is_dead : Env → Text → ConsumerEntry → Bool
is_dead env class_id e = is_for class_id e && not (env.reachable e.fd)

path_event_msg : Text → PathState → Text → ℤ → ApiMsg
path_event_msg class_id new iface rssi = record (ack_of path_event) {
  state = state_code new;
  rssi = rssi;
  class_id = to_array class_id;
  iface = to_array iface;
}

-- The cached state, interface and RSSI of the class.
unfoldable pub cache_state : Text → PathState → Text → ℤ → Server → Server
unfolding update_current_state
cache_state class_id new iface rssi s =
    let s' = update_current_state class_id new s in
    record s' {
      class_states =
          update_class class_id (λ cls. record cls { active_iface = iface; rssi = rssi })
            s'.class_states;
    }

unfoldable pub broadcast_path_event :
    Env → Text → PathState → Text → ℤ → Server → Server × List Effect
unfolding cache_state path_event_msg
broadcast_path_event env class_id new iface rssi s =
    let cached = cache_state class_id new iface rssi s in
    let sends =
      map (λ e. send e.fd (path_event_msg class_id new iface rssi))
        (keep (is_for class_id) s.registry) in
    let to_remove = map (λ e. e.fd) (keep (is_dead env class_id) s.registry) in
    let (s', effects) = remove_dead env to_remove cached in (s', sends ++ effects)
