-- ===== src/Api/Server/Invariant.antt =====
-- What holds of the server (api/consumer_api_server.cpp) between two events, and the run of its
-- event loop and of the broadcasts of the monitors' threads as a sequence of events.
use wifi_offload_rpi.Prelude.{
  All, Bool, Bool-cases, List, Option, Option-cases, Text, [], any, arith, erase_if, find_if, inl,
  inr, length, none, refl, some, suc, true, ℕ, ℤ, ◌%◌, ◌+◌, ◌<◌, ◌==◌, ◌^◌, ◌∙◌, ◌∷◌, ◌≡◌, ◌≤◌,
}
use wifi_offload_rpi.Types.{PathClassConfig, PathState}
use wifi_offload_rpi.Api.Wire.{ApiMsg, array_string, msg_code, query_current, register, unregister}
use wifi_offload_rpi.Api.Server.{
  ClassState, ConsumerEntry, Effect, Env, Server, broadcast_path_event, cache_state, drop_consumer,
  find_class, handle_client, handle_register, handle_unregister, has_class, has_fd, has_handle,
  new_server, register_known, remove_client, remove_dead, update_class, update_current_state,
}
use wifi_offload_rpi.Api.Server.Registry.{
  All-erase_if, All-keep, All-snoc, IsAscending, IsAscending-erase_if, IsAscending-keep,
  IsAscending-snoc, IsDistinct, IsDistinct-erase_if, IsDistinct-keep, IsDistinct-snoc,
  without_fd-IsFreeFd,
}

abbrev pub is_known : Text → List ClassState → Bool
is_known id = any (has_class id)

pub record IsValid (s : Server) : Type 0 where
  pub ascending : IsAscending 1 s.registry s.next_handle
  pub distinct : IsDistinct s.registry
  pub known : All (λ e. is_known e.class_id s.class_states ≡ true) s.registry

pub new_server-IsValid : (classes : List PathClassConfig) → IsValid (new_server classes)
unfolding new_server
new_server-IsValid classes = record { ascending = omega arith; distinct = tt; known = tt }

pub find_class-known :
    (id : Text) (cs : List ClassState) (c : ClassState)
    → find_class id cs ≡ some c
    → is_known id cs ≡ true
unfolding find_class
find_class-known id [] c h = cc
find_class-known id (x ∷ cs) c h = ground (arith, find_class-known id cs c)

abbrev pub Renames : (ClassState → ClassState) → Type 0
Renames f = (c : ClassState) → (f c).class_id ≡ c.class_id

pub is_known-update_class :
    (f : ClassState → ClassState)
    → Renames f
    → (id id' : Text) (cs : List ClassState) → is_known id (update_class id' f cs) ≡ is_known id cs
unfolding update_class
is_known-update_class f keeps id id' [] = refl
is_known-update_class f keeps id id' (c ∷ cs) =
    ground (arith, keeps c, is_known-update_class f keeps id id' cs)

All-map {κ μ} :
    (P : ConsumerEntry → Type κ) (Q : ConsumerEntry → Type μ)
    → ((e : ConsumerEntry) → P e → Q e)
    → (es : List ConsumerEntry) → All P es
    → All Q es
All-map P Q f [] a = tt
All-map P Q f (e ∷ es) a = (f e a.0, All-map P Q f es a.1)

update_class-IsValid :
    (f : ClassState → ClassState)
    → Renames f
    → (id : Text) (s : Server) → IsValid s
    → IsValid (record s { class_states = update_class id f s.class_states })
update_class-IsValid f keeps id s v = record {
  ascending = v.ascending;
  distinct = v.distinct;
  known =
      All-map _ _ (λ e k. is_known-update_class f keeps e.class_id id s.class_states ∙ k) s.registry
        v.known;
}

cache_state-IsValid :
    (id iface : Text) (new : PathState) (rssi : ℤ) (s : Server)
    → IsValid s
    → IsValid (cache_state id new iface rssi s)
unfolding cache_state update_current_state
cache_state-IsValid id iface new rssi s v =
    update_class-IsValid _ (λ c. refl) id _ (update_class-IsValid _ (λ c. refl) id s v)

erase_if-IsValid :
    (p : ConsumerEntry → Bool) (s : Server)
    → IsValid s
    → IsValid (record s { registry = erase_if p s.registry })
erase_if-IsValid p s v = record {
  ascending = IsAscending-erase_if p 1 s.next_handle s.registry v.ascending;
  distinct = IsDistinct-erase_if p s.registry v.distinct;
  known = All-erase_if _ p s.registry v.known;
}

drop_consumer-IsValid :
    (env : Env) (fd : ℕ) (s : Server) → IsValid s → IsValid (drop_consumer env fd s).0
unfolding drop_consumer
drop_consumer-IsValid env fd s v = elim (Option-cases (find_if (has_fd fd) s.registry)) [
  | inl e ↦ rw (e, drop_consumer) v
  | inr (x, e) ↦ rw (e, drop_consumer) (erase_if-IsValid (has_fd fd) s v)
]

remove_dead-IsValid :
    (env : Env) (fds : List ℕ) (s : Server) → IsValid s → IsValid (remove_dead env fds s).0
unfolding remove_dead
remove_dead-IsValid env [] s v = v
remove_dead-IsValid env (fd ∷ fds) s v =
    remove_dead-IsValid env fds _ (drop_consumer-IsValid env fd s v)

broadcast-IsValid :
    (env : Env) (id iface : Text) (new : PathState) (rssi : ℤ) (s : Server)
    → IsValid s
    → IsValid (broadcast_path_event env id new iface rssi s).0
unfolding broadcast_path_event
broadcast-IsValid env id iface new rssi s v =
    remove_dead-IsValid env _ _ (cache_state-IsValid id iface new rssi s v)

handle_unregister-IsValid :
    (env : Env) (fd : ℕ) (msg : ApiMsg) (s : Server)
    → IsValid s
    → IsValid (handle_unregister env fd msg s).0
unfolding handle_unregister
handle_unregister-IsValid env fd msg s v =
    elim (Option-cases (find_if (has_handle msg.handle) s.registry)) [
      | inl e ↦ rw (e, handle_unregister) v
      | inr (x, e) ↦ rw (e, handle_unregister) (erase_if-IsValid (has_handle msg.handle) s v)
    ]

-- The handle counter has not reached the end of uint64_t.
abbrev pub HasHandles : ℕ → Server → Type 0
HasHandles n s = s.next_handle + n < 2 ^ 64

register_known-IsValid :
    (env : Env) (fd : ℕ) (msg : ApiMsg) (id : Text) (cls : ClassState) (s : Server)
    → find_class id s.class_states ≡ some cls
    → HasHandles 1 s
    → IsValid s
    → IsValid (register_known env fd msg id cls s).0
unfolding register_known
register_known-IsValid env fd msg id cls s found room v = rw small (record {
  ascending = IsAscending-snoc 1 _ _ (IsAscending-keep _ 1 s.next_handle s.registry v.ascending);
  distinct =
      IsDistinct-snoc _ _ (without_fd-IsFreeFd fd s.registry)
        (IsDistinct-keep _ s.registry v.distinct);
  known =
      All-snoc _ _ _ (All-keep _ _ s.registry v.known)
        (find_class-known id s.class_states cls found);
})
  where
    small : (s.next_handle + 1) % 2 ^ 64 ≡ suc s.next_handle
    small = omega arith

handle_register-IsValid :
    (env : Env) (fd : ℕ) (msg : ApiMsg) (s : Server)
    → HasHandles 1 s
    → IsValid s
    → IsValid (handle_register env fd msg s).0
unfolding handle_register
handle_register-IsValid env fd msg s room v =
    elim (Option-cases (find_class (array_string msg.class_id) s.class_states)) [
      | inl e ↦ rw (e, handle_register) v
      | inr (cls, e) ↦ rw (e, handle_register) (register_known-IsValid env fd msg _ cls s e room v)
    ]

handle_client-IsValid :
    (env : Env) (fd : ℕ) (msg : Option ApiMsg) (s : Server)
    → HasHandles 1 s
    → IsValid s
    → IsValid (handle_client env fd msg s).0
unfolding handle_client remove_client
handle_client-IsValid env fd none s room v = drop_consumer-IsValid env fd s v
handle_client-IsValid env fd (some msg) s room v =
    elim (Bool-cases (msg.type == msg_code register)) [
      | inl r ↦ rw (r, handle_client) (handle_register-IsValid env fd msg s room v)
      | inr r ↦ elim (Bool-cases (msg.type == msg_code unregister)) [
        | inl u ↦ rw (r, u, handle_client) (handle_unregister-IsValid env fd msg s v)
        | inr u ↦ elim (Bool-cases (msg.type == msg_code query_current)) [
          | inl q ↦ rw (r, u, q, handle_client) v
          | inr q ↦ rw (r, u, q, handle_client) v
        ]
      ]
    ]

-- What can happen to a running server: a client's descriptor is readable (`none`: the read failed)
-- or hangs up, and a state machine reports a change.
pub data Event : Type 0 where
  readable : ℕ → Option ApiMsg → Event
  hung_up : ℕ → Event
  path_changed : Text → PathState → Text → ℤ → Event

-- The onStateChanged callback of main.cpp broadcasts, and then updates the cached state again.
unfoldable pub step : Env → Event → Server → Server × List Effect
step env (readable fd msg) s = handle_client env fd msg s
step env (hung_up fd) s = remove_client env fd s
step env (path_changed id new iface rssi) s =
    let (s', effects) = broadcast_path_event env id new iface rssi s in
    (update_current_state id new s', effects)

-- Each event has its own answers of the system.
unfoldable pub run : List (Env × Event) → Server → Server
run [] s = s
run ((env, ev) ∷ evs) s = run evs (step env ev s).0

step-IsValid :
    (env : Env) (ev : Event) (s : Server) → HasHandles 1 s → IsValid s → IsValid (step env ev s).0
unfolding step remove_client update_current_state
step-IsValid env (readable fd msg) s room v = handle_client-IsValid env fd msg s room v
step-IsValid env (hung_up fd) s room v = drop_consumer-IsValid env fd s v
step-IsValid env (path_changed id new iface rssi) s room v =
    update_class-IsValid _ (λ c. refl) id _ (broadcast-IsValid env id iface new rssi s v)

drop_consumer-next :
    (env : Env) (fd : ℕ) (s : Server) → (drop_consumer env fd s).0.next_handle ≡ s.next_handle
unfolding drop_consumer
drop_consumer-next env fd s = ground arith

remove_dead-next :
    (env : Env) (fds : List ℕ) (s : Server) → (remove_dead env fds s).0.next_handle ≡ s.next_handle
unfolding remove_dead
remove_dead-next env [] s = refl
remove_dead-next env (fd ∷ fds) s = remove_dead-next env fds _ ∙ drop_consumer-next env fd s

step-next :
    (env : Env) (ev : Event) (s : Server) → (step env ev s).0.next_handle ≤ s.next_handle + 1
unfolding step remove_client handle_client handle_register handle_unregister broadcast_path_event
    update_current_state cache_state
step-next env (readable fd none) s = omega (arith, drop_consumer-next env fd s)
step-next env (readable fd (some msg)) s = ground arith
step-next env (hung_up fd) s = omega (arith, drop_consumer-next env fd s)
step-next env (path_changed id new iface rssi) s =
    omega (arith, remove_dead-next env _ (cache_state id new iface rssi s))

run-IsValid :
    (evs : List (Env × Event)) (s : Server)
    → HasHandles (length evs) s
    → IsValid s
    → IsValid (run evs s)
unfolding run
run-IsValid [] s room v = v
run-IsValid ((env, ev) ∷ evs) s room v =
    run-IsValid evs _ (omega (arith, step-next env ev s)) (step-IsValid env ev s (omega arith) v)

-- From a new server, over fewer than 2 ^ 64 - 1 events of any kind: the handles handed out ascend
-- along the registry from 1, below the next one, so that they differ and none is the invalid
-- handle 0; no descriptor has two entries; and every entry is for a configured class.
pub run-new_server-IsValid :
    (classes : List PathClassConfig) (evs : List (Env × Event))
    → 1 + length evs < 2 ^ 64
    → IsValid (run evs (new_server classes))
run-new_server-IsValid classes evs room =
    run-IsValid evs _ (unfold new_server in room) (new_server-IsValid classes)
