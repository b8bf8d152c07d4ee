-- ===== src/Api/Server/Cache.antt =====
-- The state that the server caches for each class (api/consumer_api_server.cpp).
use wifi_offload_rpi.Prelude.{
  All, List, Option, Text, [], any, ap, arith, if◌then◌else◌, map, none, refl, some, text_eq,
  text_eq_iff, text_eq_self, true, ℕ, ℤ, ◌∙◌, ◌∷◌, ◌≡◌,
}
use wifi_offload_rpi.Types.{PathClassConfig, PathState, idle}
use wifi_offload_rpi.Api.Wire.{ApiMsg}
use wifi_offload_rpi.Api.Server.{
  ClassState, Env, Server, broadcast_path_event, cache_state, drop_consumer, find_class,
  handle_client, handle_register, handle_unregister, new_class_state, new_server,
  query_current_state, register_known, remove_client, remove_dead, state_of, update_class,
  update_current_state,
}
use wifi_offload_rpi.Api.Server.Replies.{find_class-unknown}
use wifi_offload_rpi.Api.Server.Invariant.{Renames, is_known, is_known-update_class}
use mathlib.Core.Option

drop_consumer-classes :
    (env : Env) (fd : ℕ) (s : Server) → (drop_consumer env fd s).0.class_states ≡ s.class_states
unfolding drop_consumer
drop_consumer-classes env fd s = ground arith

remove_dead-classes :
    (env : Env) (fds : List ℕ) (s : Server)
    → (remove_dead env fds s).0.class_states ≡ s.class_states
unfolding remove_dead
remove_dead-classes env [] s = refl
remove_dead-classes env (fd ∷ fds) s =
    remove_dead-classes env fds _ ∙ drop_consumer-classes env fd s

find_class-update_class :
    (f : ClassState → ClassState)
    → Renames f
    → (id id' : Text) (cs : List ClassState)
    → find_class id' (update_class id f cs)
      ≡ (if text_eq id id' then Option.map f (find_class id' cs) else find_class id' cs)
unfolding find_class update_class
find_class-update_class f keeps id id' [] = ground arith
find_class-update_class f keeps id id' (c ∷ cs) = ground (
  arith,
  keeps c,
  text_eq_iff c.class_id id,
  text_eq_iff c.class_id id',
  text_eq_iff id id',
  find_class-update_class f keeps id id' cs,
)

pub query-update_current_state :
    (id id' : Text) (new : PathState) (s : Server)
    → is_known id s.class_states ≡ true
    → query_current_state id' (update_current_state id new s)
      ≡ (if text_eq id id' then new else query_current_state id' s)
unfolding query_current_state update_current_state
query-update_current_state id id' new s k = ground (
  arith,
  find_class-update_class (λ cls. record cls { state = new }) (λ c. refl) id id' s.class_states,
  text_eq_iff id id',
  find_class-unknown id s.class_states,
)

state_of-details :
    (id id' iface : Text) (rssi : ℤ) (cs : List ClassState)
    → state_of (
        find_class id'
          (update_class id (λ cls. record cls { active_iface = iface; rssi = rssi }) cs))
      ≡ state_of (find_class id' cs)
unfolding state_of
state_of-details id id' iface rssi cs = ground (
  arith,
  find_class-update_class (λ cls. record cls { active_iface = iface; rssi = rssi }) (λ c. refl) id
      id' cs,
)

query-cache_state :
    (id id' iface : Text) (new : PathState) (rssi : ℤ) (s : Server)
    → is_known id s.class_states ≡ true
    → query_current_state id' (cache_state id new iface rssi s)
      ≡ (if text_eq id id' then new else query_current_state id' s)
unfolding query_current_state cache_state
query-cache_state id id' iface new rssi s k =
    state_of-details id id' iface rssi (update_current_state id new s).class_states
    ∙ query-update_current_state id id' new s k

-- After a broadcast for a configured class, a query for that class gives the state that was
-- broadcast, and a query for any other class gives what it gave before.
pub query-broadcast_path_event :
    (env : Env) (id id' iface : Text) (new : PathState) (rssi : ℤ) (s : Server)
    → is_known id s.class_states ≡ true
    → query_current_state id' (broadcast_path_event env id new iface rssi s).0
      ≡ (if text_eq id id' then new else query_current_state id' s)
unfolding broadcast_path_event query_current_state
query-broadcast_path_event env id id' iface new rssi s k =
    ap (λ cs. state_of (find_class id' cs))
      (remove_dead-classes env _ (cache_state id new iface rssi s))
    ∙ query-cache_state id id' iface new rssi s k

pub update_current_state-known :
    (id id' : Text) (new : PathState) (s : Server)
    → is_known id' (update_current_state id new s).class_states ≡ is_known id' s.class_states
unfolding update_current_state
update_current_state-known id id' new s =
    is_known-update_class (λ cls. record cls { state = new }) (λ c. refl) id' id s.class_states

pub broadcast_path_event-known :
    (env : Env) (id id' iface : Text) (new : PathState) (rssi : ℤ) (s : Server)
    → is_known id' (broadcast_path_event env id new iface rssi s).0.class_states
      ≡ is_known id' s.class_states
unfolding broadcast_path_event cache_state
broadcast_path_event-known env id id' iface new rssi s =
    ap (is_known id') (remove_dead-classes env _ (cache_state id new iface rssi s))
    ∙ is_known-update_class (λ cls. record cls { active_iface = iface; rssi = rssi }) (λ c. refl)
        id' id _
    ∙ update_current_state-known id id' new s

-- A client cannot touch the cache.
pub handle_client-classes :
    (env : Env) (fd : ℕ) (msg : Option ApiMsg) (s : Server)
    → (handle_client env fd msg s).0.class_states ≡ s.class_states
unfolding handle_client handle_register register_known handle_unregister remove_client
handle_client-classes env fd none s = drop_consumer-classes env fd s
handle_client-classes env fd (some msg) s = ground arith

pub remove_client-classes :
    (env : Env) (fd : ℕ) (s : Server) → (remove_client env fd s).0.class_states ≡ s.class_states
unfolding remove_client
remove_client-classes env fd s = drop_consumer-classes env fd s

new_classes-known :
    (id : Text) (cs : List PathClassConfig)
    → is_known id (map new_class_state cs) ≡ any (λ c. text_eq c.id id) cs
unfolding new_class_state
new_classes-known id [] = refl
new_classes-known id (c ∷ cs) = ground (arith, new_classes-known id cs)

any-All :
    (cs rest : List PathClassConfig)
    → ((c : PathClassConfig)
        → any (λ b. text_eq b.id c.id) rest ≡ true
        → any (λ b. text_eq b.id c.id) cs ≡ true)
    → All (λ c. any (λ b. text_eq b.id c.id) cs ≡ true) rest
any-All cs [] f = tt
any-All cs (c ∷ rest) f =
    (f c (ground (arith, text_eq_self c.id)), any-All cs rest (λ x h. f x (ground arith)))

pub new_server-known :
    (classes : List PathClassConfig)
    → All (λ c. is_known c.id (new_server classes).class_states ≡ true) classes
unfolding new_server
new_server-known classes = known classes (any-All classes classes (λ c h. h))
  where
    known :
        (cs : List PathClassConfig)
        → All (λ c. any (λ b. text_eq b.id c.id) classes ≡ true) cs
        → All (λ c. is_known c.id (map new_class_state classes) ≡ true) cs
    known [] h = tt
    known (c ∷ cs) h = (new_classes-known c.id classes ∙ h.0, known cs h.1)

pub query-new_server :
    (id : Text) (classes : List PathClassConfig)
    → query_current_state id (new_server classes) ≡ idle
unfolding query_current_state new_server new_class_state find_class state_of
query-new_server id [] = refl
query-new_server id (c ∷ cs) = ground (arith, query-new_server id cs)
