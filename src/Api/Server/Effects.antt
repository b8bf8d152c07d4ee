-- ===== src/Api/Server/Effects.antt =====
-- The effects of the server's operations (api/consumer_api_server.cpp): who is sent to, and which
-- descriptors are closed.
use wifi_offload_rpi.Prelude.{
  List, Option-cases, Text, [], ap, arith, find_if, inl, inr, refl, ℕ, ℤ, ◌++◌, ◌∷◌, ◌≡◌,
}
use wifi_offload_rpi.Api.Server.{
  Effect, Env, Server, assign_cgroup_pid, closed, drop_consumer, epoll_removed, has_fd,
  remove_cgroup_pid, send, wrote,
}

-- The descriptors that a run of the send loop is for, and those that are closed.
abbrev pub sent_to : List Effect → List ℕ
sent_to [] = []
sent_to (send fd msg ∷ es) = fd ∷ sent_to es
sent_to (wrote path pid ∷ es) = sent_to es
sent_to (epoll_removed fd ∷ es) = sent_to es
sent_to (closed fd ∷ es) = sent_to es

abbrev pub closed_fds : List Effect → List ℕ
closed_fds [] = []
closed_fds (send fd msg ∷ es) = closed_fds es
closed_fds (wrote path pid ∷ es) = closed_fds es
closed_fds (epoll_removed fd ∷ es) = closed_fds es
closed_fds (closed fd ∷ es) = fd ∷ closed_fds es

pub sent_to-append : (xs ys : List Effect) → sent_to (xs ++ ys) ≡ sent_to xs ++ sent_to ys
sent_to-append [] ys = refl
sent_to-append (send fd msg ∷ xs) ys = ap (◌∷◌ fd) (sent_to-append xs ys)
sent_to-append (wrote path pid ∷ xs) ys = sent_to-append xs ys
sent_to-append (epoll_removed fd ∷ xs) ys = sent_to-append xs ys
sent_to-append (closed fd ∷ xs) ys = sent_to-append xs ys

pub closed_fds-append :
    (xs ys : List Effect) → closed_fds (xs ++ ys) ≡ closed_fds xs ++ closed_fds ys
closed_fds-append [] ys = refl
closed_fds-append (send fd msg ∷ xs) ys = closed_fds-append xs ys
closed_fds-append (wrote path pid ∷ xs) ys = closed_fds-append xs ys
closed_fds-append (epoll_removed fd ∷ xs) ys = closed_fds-append xs ys
closed_fds-append (closed fd ∷ xs) ys = ap (◌∷◌ fd) (closed_fds-append xs ys)

-- Moving a process between cgroups sends nothing and closes nothing.
abbrev IsSilent : List Effect → Type 0
IsSilent es = (sent_to es ≡ []) × (closed_fds es ≡ [])

pub remove_cgroup_pid-IsSilent :
    (env : Env) (id : Text) (pid : ℤ) (s : Server) → IsSilent (remove_cgroup_pid env id pid s)
unfolding remove_cgroup_pid
remove_cgroup_pid-IsSilent env id pid s = ground arith

pub assign_cgroup_pid-IsSilent :
    (env : Env) (id : Text) (pid : ℤ) (s : Server) → IsSilent (assign_cgroup_pid env id pid s)
unfolding assign_cgroup_pid
assign_cgroup_pid-IsSilent env id pid s = ground arith

pub drop_consumer-IsSilent : (env : Env) (fd : ℕ) (s : Server) → IsSilent (drop_consumer env fd s).1
unfolding drop_consumer
drop_consumer-IsSilent env fd s = elim (Option-cases (find_if (has_fd fd) s.registry)) [
  | inl e ↦ rw (e, drop_consumer) (refl, refl)
  | inr (x, e) ↦ rw (e, drop_consumer) (remove_cgroup_pid-IsSilent env x.class_id x.pid s)
]
