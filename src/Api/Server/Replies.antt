-- ===== src/Api/Server/Replies.antt =====
-- What a client is answered (api/consumer_api_server.cpp, handleClient and the three handlers).
use wifi_offload_rpi.Prelude.{
  Bool, Bool-cases, List, Option-cases, Text, [], any, ap, arith, false, find_if, if◌then◌else◌,
  inl, inr, none, refl, some, true, ℕ, ℤ, ◌++◌, ◌==◌, ◌∷◌, ◌≡◌, ◌⊎◌,
}
use wifi_offload_rpi.Api.Wire.{ApiMsg, array_string}
use wifi_offload_rpi.Api.Server.{
  ClassState, ConsumerEntry, Effect, Env, Server, assign_cgroup_pid, closed, epoll_removed,
  find_class, handle_client, handle_query_current, handle_register, handle_unregister, has_handle,
  remove_cgroup_pid, send, wrote,
}
use wifi_offload_rpi.Api.Server.Invariant.{find_class-known, is_known}

-- The type and the error code of the messages that are sent, with their receivers.
abbrev pub replies : List Effect → List (ℕ × ℕ × ℕ)
replies [] = []
replies (send fd msg ∷ es) = (fd, msg.type, msg.error) ∷ replies es
replies (wrote path pid ∷ es) = replies es
replies (epoll_removed fd ∷ es) = replies es
replies (closed fd ∷ es) = replies es

replies-append : (xs ys : List Effect) → replies (xs ++ ys) ≡ replies xs ++ replies ys
replies-append [] ys = refl
replies-append (send fd msg ∷ xs) ys = ap (◌∷◌ (fd, msg.type, msg.error)) (replies-append xs ys)
replies-append (wrote path pid ∷ xs) ys = replies-append xs ys
replies-append (epoll_removed fd ∷ xs) ys = replies-append xs ys
replies-append (closed fd ∷ xs) ys = replies-append xs ys

assign_cgroup_pid-replies :
    (env : Env) (id : Text) (pid : ℤ) (s : Server) → replies (assign_cgroup_pid env id pid s) ≡ []
unfolding assign_cgroup_pid
assign_cgroup_pid-replies env id pid s = ground arith

pub remove_cgroup_pid-replies :
    (env : Env) (id : Text) (pid : ℤ) (s : Server) → replies (remove_cgroup_pid env id pid s) ≡ []
unfolding remove_cgroup_pid
remove_cgroup_pid-replies env id pid s = ground arith

-- The answer that the protocol promises: its type, and 0 exactly if the request can be met.
expected_class : ApiMsg → Server → ℕ
expected_class msg s = if is_known (array_string msg.class_id) s.class_states then 0 else 2

unfoldable pub expected : ApiMsg → Server → ℕ × ℕ
unfolding expected_class
expected msg s =
    if msg.type == 1
    then (2, expected_class msg s)
    else if msg.type == 3
    then (4, (if any (has_handle msg.handle) s.registry then 0 else 1))
    else if msg.type == 5
    then (6, expected_class msg s)
    else (2, 1)

pub find_class-unknown :
    (id : Text) (cs : List ClassState) → find_class id cs ≡ none → is_known id cs ≡ false
unfolding find_class
find_class-unknown id [] h = refl
find_class-unknown id (x ∷ cs) h = ground (arith, find_class-unknown id cs)

find_if-any :
    (p : ConsumerEntry → Bool) (es : List ConsumerEntry) (e : ConsumerEntry)
    → find_if p es ≡ some e
    → any p es ≡ true
find_if-any p [] e h = cc
find_if-any p (x ∷ es) e h = ground (arith, find_if-any p es e)

find_if-none :
    (p : ConsumerEntry → Bool) (es : List ConsumerEntry) → find_if p es ≡ none → any p es ≡ false
find_if-none p [] h = refl
find_if-none p (x ∷ es) h = ground (arith, find_if-none p es)

-- One answer to `fd` with this type and error, and no change of the server on an error.
abbrev IsAnswered : ℕ → ℕ → ℕ → Server → Server × List Effect → Type 0
IsAnswered fd type error s (s', effects) =
    (replies effects ≡ (fd, type, error) ∷ []) × ((error ≡ 0) ⊎ (s' ≡ s))

handle_register-IsAnswered :
    (env : Env) (fd : ℕ) (msg : ApiMsg) (s : Server)
    → IsAnswered fd 2 (expected_class msg s) s (handle_register env fd msg s)
unfolding handle_register expected_class
handle_register-IsAnswered env fd msg s =
    elim (Option-cases (find_class (array_string msg.class_id) s.class_states)) [
      | inl e ↦ rw (e, handle_register, find_class-unknown _ _ e) (refl, inr refl)
      | inr (cls, e) ↦
          rw
            (
              e,
              handle_register,
              find_class-known _ _ cls e,
              replies-append,
              assign_cgroup_pid-replies,
            )
            (refl, inl refl)
    ]

handle_unregister-IsAnswered :
    (env : Env) (fd : ℕ) (msg : ApiMsg) (s : Server)
    → IsAnswered fd 4
        (if any (has_handle msg.handle) s.registry then 0 else 1)
        s
        (handle_unregister env fd msg s)
unfolding handle_unregister
handle_unregister-IsAnswered env fd msg s =
    elim (Option-cases (find_if (has_handle msg.handle) s.registry)) [
      | inl e ↦ rw (e, handle_unregister, find_if-none _ _ e) (refl, inr refl)
      | inr (x, e) ↦
          rw (e, handle_unregister, find_if-any _ _ x e, replies-append, remove_cgroup_pid-replies)
            (refl, inl refl)
    ]

handle_query-IsAnswered :
    (fd : ℕ) (msg : ApiMsg) (s : Server)
    → IsAnswered fd 6 (expected_class msg s) s (s, handle_query_current fd msg s)
unfolding handle_query_current expected_class
handle_query-IsAnswered fd msg s =
    elim (Option-cases (find_class (array_string msg.class_id) s.class_states)) [
      | inl e ↦ rw (e, handle_query_current, find_class-unknown _ _ e) (refl, inr refl)
      | inr (cls, e) ↦ rw (e, handle_query_current, find_class-known _ _ cls e) (refl, inr refl)
    ]

-- Every message that is read gets exactly one answer, on its own descriptor, whose type belongs to
-- the request and whose error is 0 exactly if the class is configured (Register, QueryCurrent) or
-- the handle is registered (Unregister), 1 or 2 if not, and 1 for an unknown type; a request that
-- is answered by an error changes nothing.
pub handle_client-replies :
    (env : Env) (fd : ℕ) (msg : ApiMsg) (s : Server)
    → let (s', effects) = handle_client env fd (some msg) s in
      let (type, error) = expected msg s in
      (replies effects ≡ (fd, type, error) ∷ []) × ((error ≡ 0) ⊎ (s' ≡ s))
unfolding handle_client expected
handle_client-replies env fd msg s = elim (Bool-cases (msg.type == 1)) [
  | inl r ↦ rw (r, handle_client, expected) (handle_register-IsAnswered env fd msg s)
  | inr r ↦ elim (Bool-cases (msg.type == 3)) [
    | inl u ↦ rw (r, u, handle_client, expected) (handle_unregister-IsAnswered env fd msg s)
    | inr u ↦ elim (Bool-cases (msg.type == 5)) [
      | inl q ↦ rw (r, u, q, handle_client, expected) (handle_query-IsAnswered fd msg s)
      | inr q ↦ rw (r, u, q, handle_client, expected) (refl, inr refl)
    ]
  ]
]
