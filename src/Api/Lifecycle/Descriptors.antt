-- ===== src/Api/Lifecycle/Descriptors.antt =====
-- The descriptors that start, stop and handleAccept (api/consumer_api_server.cpp) open and close.
use wifi_offload_rpi.Prelude.{
  Bool, Expected, List, Option, Text, [], ap, false, if◌then◌else◌, is_empty, none, not, ok, refl,
  some, sym, true, unexpected, ℕ, ◌++◌, ◌||◌, ◌∙◌, ◌∷◌, ◌≡◌,
}
use wifi_offload_rpi.Types.{ApiError}
use wifi_offload_rpi.Api.Lifecycle.{
  Call, Listener, StartAnswers, failed, handled, joined, made_dir, made_public, new_listener,
  opened, parent_dir, shut, start, thread_started, unlinked, with_epoll, with_socket, with_wakeup,
  woken,
}
use wifi_offload_rpi.Api.Server.{closed, epoll_removed, send, wrote}
use mathlib.Core.List.{reverse}

abbrev pub opened_of : List Call → List ℕ
opened_of [] = []
opened_of (opened fd ∷ calls) = fd ∷ opened_of calls
opened_of (_ ∷ calls) = opened_of calls

abbrev pub closed_of : List Call → List ℕ
closed_of [] = []
closed_of (shut fd ∷ calls) = fd ∷ closed_of calls
closed_of (handled (closed fd) ∷ calls) = fd ∷ closed_of calls
closed_of (_ ∷ calls) = closed_of calls

opened_of-append : (xs ys : List Call) → opened_of (xs ++ ys) ≡ opened_of xs ++ opened_of ys
opened_of-append [] ys = refl
opened_of-append (opened fd ∷ xs) ys = ap (λ zs. fd ∷ zs) (opened_of-append xs ys)
opened_of-append (shut fd ∷ xs) ys = opened_of-append xs ys
opened_of-append (made_dir p ∷ xs) ys = opened_of-append xs ys
opened_of-append (made_public p ∷ xs) ys = opened_of-append xs ys
opened_of-append (unlinked p ∷ xs) ys = opened_of-append xs ys
opened_of-append (thread_started ∷ xs) ys = opened_of-append xs ys
opened_of-append (woken ∷ xs) ys = opened_of-append xs ys
opened_of-append (joined ∷ xs) ys = opened_of-append xs ys
opened_of-append (handled e ∷ xs) ys = opened_of-append xs ys

pub closed_of-append : (xs ys : List Call) → closed_of (xs ++ ys) ≡ closed_of xs ++ closed_of ys
closed_of-append [] ys = refl
closed_of-append (opened fd ∷ xs) ys = closed_of-append xs ys
closed_of-append (shut fd ∷ xs) ys = ap (λ zs. fd ∷ zs) (closed_of-append xs ys)
closed_of-append (made_dir p ∷ xs) ys = closed_of-append xs ys
closed_of-append (made_public p ∷ xs) ys = closed_of-append xs ys
closed_of-append (unlinked p ∷ xs) ys = closed_of-append xs ys
closed_of-append (thread_started ∷ xs) ys = closed_of-append xs ys
closed_of-append (woken ∷ xs) ys = closed_of-append xs ys
closed_of-append (joined ∷ xs) ys = closed_of-append xs ys
closed_of-append (handled (closed fd) ∷ xs) ys = ap (λ zs. fd ∷ zs) (closed_of-append xs ys)
closed_of-append (handled (send fd msg) ∷ xs) ys = closed_of-append xs ys
closed_of-append (handled (wrote p pid) ∷ xs) ys = closed_of-append xs ys
closed_of-append (handled (epoll_removed fd) ∷ xs) ys = closed_of-append xs ys

abbrev pub fd_list : Option ℕ → List ℕ
fd_list none = []
fd_list (some fd) = fd ∷ []

-- The descriptors that the fields hold, in the order in which start opens them.
abbrev pub held : Listener → List ℕ
held l = fd_list l.listen_fd ++ (fd_list l.epoll_fd ++ fd_list l.wakeup_fd)

abbrev pub is_ok {ℓ} : {E : Type 0} {A : Type ℓ} → Expected E A → Bool
is_ok (ok a) = true
is_ok (unexpected e) = false

-- What start has done with descriptors, given those that it had opened before.
abbrev Kept : Expected ApiError (Unit {0}) × (Listener × List Call) → Type 0
Kept (r, (l, calls)) =
    (l.running ≡ is_ok r)
    × (held l ≡ (if is_ok r then opened_of calls else []))
    × (closed_of calls ≡ (if is_ok r then [] else reverse (opened_of calls)))

abbrev IsQuiet : List Call → List ℕ → Type 0
IsQuiet calls fds = (opened_of calls ≡ fds) × (closed_of calls ≡ [])

Kept-if :
    (b : Bool) (x y : Expected ApiError (Unit {0}) × (Listener × List Call))
    → Kept x
    → Kept y
    → Kept (if b then x else y)
Kept-if true x y h k = h
Kept-if false x y h k = k

failed-Kept :
    (calls more : List Call) (fds : List ℕ)
    → IsQuiet calls fds
    → closed_of more ≡ reverse (fds ++ opened_of more)
    → Kept (failed new_listener (calls ++ more))
unfolding failed
failed-Kept calls more fds (o, c) e =
    (refl, refl, closed_of-append calls more ∙ rw (c, opened_of-append calls more, o) e)

IsQuiet-append :
    (calls more : List Call) (fds : List ℕ)
    → IsQuiet calls fds
    → closed_of more ≡ []
    → IsQuiet (calls ++ more) (fds ++ opened_of more)
IsQuiet-append calls more fds (o, c) e =
    (opened_of-append calls more ∙ rw o refl, closed_of-append calls more ∙ rw (c, e) refl)

module _ (path : Text) (a : StartAnswers) where
  with_wakeup-Kept :
      (listen epoll : ℕ) (wakeup : Option ℕ) (calls : List Call)
      → IsQuiet calls (listen ∷ epoll ∷ [])
      → Kept (with_wakeup path a listen epoll wakeup calls new_listener)
  unfolding with_wakeup
  with_wakeup-Kept listen epoll none calls q =
      failed-Kept calls (shut epoll ∷ shut listen ∷ []) (listen ∷ epoll ∷ []) q refl
  with_wakeup-Kept listen epoll (some wakeup) calls q =
      let done =
        IsQuiet-append calls (opened wakeup ∷ thread_started ∷ []) (listen ∷ epoll ∷ []) q refl in
      Kept-if (not a.add_listen_ok || not a.add_wakeup_ok) _ _
        (failed-Kept calls (opened wakeup ∷ shut wakeup ∷ shut epoll ∷ shut listen ∷ [])
          (listen ∷ epoll ∷ []) q refl)
        (refl, sym done.0, done.1)

  with_epoll-Kept :
      (listen : ℕ) (epoll : Option ℕ) (calls : List Call)
      → IsQuiet calls (listen ∷ [])
      → Kept (with_epoll path a listen epoll calls new_listener)
  unfolding with_epoll
  with_epoll-Kept listen none calls q = failed-Kept calls (shut listen ∷ []) (listen ∷ []) q refl
  with_epoll-Kept listen (some epoll) calls q =
      with_wakeup-Kept listen epoll a.eventfd (calls ++ (opened epoll ∷ []))
        (IsQuiet-append calls (opened epoll ∷ []) (listen ∷ []) q refl)

  with_socket-Kept :
      (socket : Option ℕ) (calls : List Call)
      → IsQuiet calls []
      → Kept (with_socket path a socket calls new_listener)
  unfolding with_socket failed
  with_socket-Kept none calls (o, c) = (refl, refl, rw (c, o) refl)
  with_socket-Kept (some listen) calls q =
      Kept-if (not a.bind_ok) _ _ (failed-Kept calls (opened listen ∷ shut listen ∷ []) [] q refl) (
        Kept-if (not a.listen_ok) _ _
          (failed-Kept calls (opened listen ∷ made_public path ∷ shut listen ∷ []) [] q refl)
          (with_epoll-Kept listen a.epoll_create (calls ++ (opened listen ∷ made_public path ∷ []))
            (IsQuiet-append calls (opened listen ∷ made_public path ∷ []) [] q refl)))

  -- However the calls of start go: the server runs exactly if start succeeds; then its fields hold
  -- what was opened, which is all still open; and if it fails, its fields are -1 and everything that
  -- was opened has been closed, each once and the last first.
  pub start-Kept :
      let (r, (l, calls)) = start path a new_listener in
      (l.running ≡ is_ok r)
      × (held l ≡ (if is_ok r then opened_of calls else []))
      × (closed_of calls ≡ (if is_ok r then [] else reverse (opened_of calls)))
  unfolding start
  start-Kept = with_socket-Kept a.socket _ (prepared (is_empty (parent_dir path)))
    where
      prepared :
          (b : Bool)
          → IsQuiet
              ((if not b then made_dir (parent_dir path) ∷ [] else []) ++ (unlinked path ∷ []))
              []
      prepared true = (refl, refl)
      prepared false = (refl, refl)
