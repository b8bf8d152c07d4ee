-- ===== src/Api/Lifecycle/Stopping.antt =====
-- What stop (api/consumer_api_server.cpp) closes of what start has opened.
use wifi_offload_rpi.Prelude.{
  Bool-cases, List, Option, Text, [], ap, arith, false, if◌then◌else◌, inl, inr, map, none, refl,
  some, true, ℕ, ◌++◌, ◌+◌, ◌==◌, ◌∙◌, ◌∷◌, ◌≡◌,
}
use wifi_offload_rpi.Api.Lifecycle.Descriptors.{
  closed_of, closed_of-append, fd_list, held, is_ok, opened_of, start-Kept,
}
use wifi_offload_rpi.Api.Lifecycle.{
  Call, Listener, StartAnswers, close_if, joined, new_listener, shut, start, stop, unlinked,
  wake_if,
}
use wifi_offload_rpi.Api.Server.{ConsumerEntry, Server}
use mathlib.Core.List.{reverse, reverse_aux}
use mathlib.Core.List.{append-nil}

close_all-closed :
    (entries : List ConsumerEntry)
    → closed_of (map (λ e. shut e.fd) entries) ≡ map (λ e. e.fd) entries
close_all-closed [] = refl
close_all-closed (e ∷ entries) = ap (λ fds. e.fd ∷ fds) (close_all-closed entries)

close_if-closed : (path : Text) (fd : Option ℕ) → closed_of (close_if path fd) ≡ fd_list fd
unfolding close_if
close_if-closed path none = refl
close_if-closed path (some fd) = refl

wake_if-closed : (path : Text) (fd : Option ℕ) → closed_of (wake_if path fd) ≡ []
unfolding wake_if
wake_if-closed path none = refl
wake_if-closed path (some fd) = refl

-- The calls of stop on a running server.
abbrev stop_calls : Text → Listener → Server → List Call
stop_calls path l s =
    wake_if path l.wakeup_fd
    ++ (joined ∷ map (λ e. shut e.fd) s.registry
        ++ (close_if path l.wakeup_fd
            ++ (close_if path l.epoll_fd ++ (close_if path l.listen_fd ++ (unlinked path ∷ [])))))

stop_running :
    (path : Text) (l : Listener) (s : Server)
    → l.running ≡ true
    → stop path l s ≡ ((new_listener, record s { registry = [] }), stop_calls path l s)
unfolding stop
stop_running path l s r = simp r

stop_calls-closed :
    (path : Text) (l : Listener) (s : Server)
    → closed_of (stop_calls path l s)
      ≡ map (λ e. e.fd) s.registry
        ++ (fd_list l.wakeup_fd ++ (fd_list l.epoll_fd ++ fd_list l.listen_fd))
stop_calls-closed path l s = simp (
  closed_of-append,
  wake_if-closed path l.wakeup_fd,
  close_if-closed path l.wakeup_fd,
  close_if-closed path l.epoll_fd,
  close_if-closed path l.listen_fd,
  close_all-closed s.registry,
  append-nil,
)

stop_idle :
    (path : Text) (l : Listener) (s : Server) → l.running ≡ false → stop path l s ≡ ((l, s), [])
unfolding stop
stop_idle path l s r = simp r

-- How often a descriptor is in a list.
abbrev pub times : ℕ → List ℕ → ℕ
times fd [] = 0
times fd (x ∷ xs) = (if x == fd then 1 else 0) + times fd xs

times-append : (fd : ℕ) (xs ys : List ℕ) → times fd (xs ++ ys) ≡ times fd xs + times fd ys
times-append fd [] ys = omega arith
times-append fd (x ∷ xs) ys = omega (arith, times-append fd xs ys)

times-reverse_aux :
    (fd : ℕ) (xs acc : List ℕ) → times fd (reverse_aux xs acc) ≡ times fd xs + times fd acc
times-reverse_aux fd [] acc = omega arith
times-reverse_aux fd (x ∷ xs) acc = omega (arith, times-reverse_aux fd xs (x ∷ acc))

times-reverse : (fd : ℕ) (xs : List ℕ) → times fd (reverse xs) ≡ times fd xs
times-reverse fd xs = omega (arith, times-reverse_aux fd xs [])

-- The server's own descriptors, in the order in which stop closes them.
times-held :
    (fd : ℕ) (l : Listener)
    → times fd (fd_list l.wakeup_fd ++ (fd_list l.epoll_fd ++ fd_list l.listen_fd))
      ≡ times fd (held l)
times-held fd l = omega (
  arith,
  times-append fd (fd_list l.wakeup_fd) (fd_list l.epoll_fd ++ fd_list l.listen_fd),
  times-append fd (fd_list l.epoll_fd) (fd_list l.listen_fd),
  times-append fd (fd_list l.listen_fd) (fd_list l.epoll_fd ++ fd_list l.wakeup_fd),
  times-append fd (fd_list l.epoll_fd) (fd_list l.wakeup_fd),
)

abbrev consumers : Server → List ℕ
consumers s = map (λ e. e.fd) s.registry

stop-running :
    (path : Text) (l : Listener) (s : Server) (fd : ℕ)
    → l.running ≡ true
    → times fd (closed_of (stop path l s).1) ≡ times fd (consumers s) + times fd (held l)
stop-running path l s fd r = rw (stop_running path l s r) (
    ap (times fd) (stop_calls-closed path l s)
    ∙ times-append fd (consumers s) _
    ∙ ap (λ n. times fd (consumers s) + n) (times-held fd l))

-- Over the life of a server, whichever of start's calls fail, and with any consumers at the end:
-- start and stop together close every descriptor as often as start has opened it, and, if start
-- succeeded, once more for each registered consumer that has it; and nothing is left for a second
-- stop, which changes nothing and makes no call.
pub stop-start :
    (path : Text) (a : StartAnswers) (s : Server) (fd : ℕ)
    → let (r, (l, calls)) = start path a new_listener in
      let ((l', s'), calls') = stop path l s in
      (times fd (closed_of (calls ++ calls'))
        ≡ times fd (opened_of calls) + (if is_ok r then times fd (consumers s) else 0))
      × (held l' ≡ [])
      × (stop path l' s' ≡ ((l', s'), []))
stop-start path a s fd =
    let (running, kept, closes) = start-Kept path a in
    let (r, (l, calls)) = start path a new_listener in
    let both = closed_of-append calls (stop path l s).1 in
    elim (Bool-cases (is_ok r)) [
      | inl good ↦
          let up : l.running ≡ true = running ∙ good in
          let opens : held l ≡ opened_of calls = rw good at kept in
          let none_yet : closed_of calls ≡ [] = rw good at closes in
          let stopped = stop-running path l s fd up in
          (
            ap (times fd) both
                ∙ times-append fd (closed_of calls) _
                ∙ rw (good, none_yet, stopped, opens) (omega arith),
            rw (stop_running path l s up) refl,
            rw (stop_running path l s up) (stop_idle path new_listener _ refl),
          )
      | inr bad ↦
          let down : l.running ≡ false = running ∙ bad in
          let none_held : held l ≡ [] = rw bad at kept in
          let all_closed : closed_of calls ≡ reverse (opened_of calls) = rw bad at closes in
          (
            ap (times fd) both
                ∙ times-append fd (closed_of calls) _
                ∙ rw (bad, stop_idle path l s down, all_closed, times-reverse fd (opened_of calls))
                    (omega arith),
            rw (stop_idle path l s down) none_held,
            rw (stop_idle path l s down) (stop_idle path l s down),
          )
    ]
