-- ===== src/Api/Lifecycle.antt =====
-- api/consumer_api_server.cpp, start, stop, runLoop and handleAccept: the server's descriptors and
-- its event loop. What the system answers is an argument; what is called is a list, oldest first.
mod Examples
pub mod Loop
pub mod Descriptors
pub mod Stopping
use wifi_offload_rpi.Prelude.{
  Bool, Expected, List, Option, Text, [], false, if◌then◌else◌, is_empty, map, none, not, ok, some,
  suc, take, true, unexpected, ℕ, ◌++◌, ◌==◌, ◌||◌, ◌∷◌,
}
use wifi_offload_rpi.Types.{ApiError, socket_error}
use wifi_offload_rpi.Api.Wire.{ApiMsg}
use wifi_offload_rpi.Api.Server.{ConsumerEntry, Effect, Env, Server, handle_client, remove_client}

-- `none` is -1.
pub record Listener : Type 0 where
  pub listen_fd : Option ℕ
  pub epoll_fd : Option ℕ
  pub wakeup_fd : Option ℕ
  pub running : Bool

abbrev pub new_listener : Listener
new_listener = record { listen_fd = none; epoll_fd = none; wakeup_fd = none; running = false }

pub data Call : Type 0 where
  made_dir unlinked made_public : Text → Call
  opened shut : ℕ → Call
  thread_started woken joined : Call
  handled : Effect → Call

-- What the calls of start return.
pub record StartAnswers : Type 0 where
  pub socket : Option ℕ
  pub bind_ok : Bool
  pub listen_ok : Bool
  pub epoll_create : Option ℕ
  pub eventfd : Option ℕ
  pub add_listen_ok : Bool
  pub add_wakeup_ok : Bool

-- substr(0, rfind('/')): all of a path without a slash.
last_slash : Text → Option ℕ
last_slash [] = none
last_slash (c ∷ cs) = elim (last_slash cs) [
  | some p ↦ some (suc p)
  | none ↦ if c == b'/' then some 0 else none
]

parent_dir : Text → Text
unfolding last_slash
parent_dir path = elim (last_slash path) [ none ↦ path | some p ↦ take p path ]

abbrev pub Started : Type 0
Started = Expected ApiError (Unit {0}) × (Listener × List Call)

failed : Listener → List Call → Started
failed l calls = (unexpected socket_error, (l, calls))

module _ (path : Text) where
  with_wakeup : StartAnswers → ℕ → ℕ → Option ℕ → List Call → Listener → Started
  with_wakeup a listen epoll none calls l =
      failed (record l { epoll_fd = none; listen_fd = none; wakeup_fd = none })
        (calls ++ (shut epoll ∷ shut listen ∷ []))
  with_wakeup a listen epoll (some wakeup) calls l =
      if not a.add_listen_ok || not a.add_wakeup_ok
      then failed (record l { wakeup_fd = none; epoll_fd = none; listen_fd = none })
          (calls ++ (opened wakeup ∷ shut wakeup ∷ shut epoll ∷ shut listen ∷ []))
      else (
        ok tt,
        (
          record {
            listen_fd = some listen;
            epoll_fd = some epoll;
            wakeup_fd = some wakeup;
            running = true;
          },
          calls ++ (opened wakeup ∷ thread_started ∷ []),
        ),
      )

  with_epoll : StartAnswers → ℕ → Option ℕ → List Call → Listener → Started
  unfolding with_wakeup
  with_epoll a listen none calls l =
      failed (record l { epoll_fd = none; listen_fd = none }) (calls ++ (shut listen ∷ []))
  with_epoll a listen (some epoll) calls l =
      with_wakeup a listen epoll a.eventfd (calls ++ (opened epoll ∷ [])) l

  with_socket : StartAnswers → Option ℕ → List Call → Listener → Started
  unfolding with_epoll
  with_socket a none calls l = failed (record l { listen_fd = none }) calls
  with_socket a (some listen) calls l =
      if not a.bind_ok
      then failed (record l { listen_fd = none }) (calls ++ (opened listen ∷ shut listen ∷ []))
      else if not a.listen_ok
      then failed (record l { listen_fd = none })
          (calls ++ (opened listen ∷ made_public path ∷ shut listen ∷ []))
      else with_epoll a listen a.epoll_create (calls ++ (opened listen ∷ made_public path ∷ [])) l

  unfoldable pub start : StartAnswers → Listener → Started
  unfolding with_socket parent_dir failed
  start a l =
      let dir = parent_dir path in
      let prepared =
        (if not (is_empty dir) then made_dir dir ∷ [] else []) ++ (unlinked path ∷ []) in
      with_socket a a.socket prepared l

  close_if : Option ℕ → List Call
  close_if none = []
  close_if (some fd) = shut fd ∷ []

  abbrev close_all : List ConsumerEntry → List Call
  close_all = map (λ e. shut e.fd)

  wake_if : Option ℕ → List Call
  wake_if none = []
  wake_if (some fd) = woken ∷ []

  -- A thread that was started can be joined; it is, unless the server is not running.
  unfoldable pub stop : Listener → Server → (Listener × Server) × List Call
  unfolding close_if wake_if
  stop l s = if not l.running then ((l, s), []) else (
    (new_listener, record s { registry = [] }),
    wake_if l.wakeup_fd
        ++ (joined ∷ close_all s.registry
            ++ (close_if l.wakeup_fd
                ++ (close_if l.epoll_fd ++ (close_if l.listen_fd ++ (unlinked path ∷ []))))),
  )

-- One answer of accept4: `none` is -1, with any errno; else the descriptor, and whether epoll takes it.
abbrev pub Accept : Type 0
Accept = Option (ℕ × Bool)

unfoldable pub handle_accept : List Accept → List Call
handle_accept [] = []
handle_accept (none ∷ rest) = []
handle_accept (some (fd, added) ∷ rest) =
    (if added then opened fd ∷ [] else opened fd ∷ shut fd ∷ []) ++ handle_accept rest

-- An entry that epoll_wait gives, with what the calls of its handler will meet.
pub record Ready : Type 0 where
  pub fd : ℕ
  pub hung_up : Bool
  pub input : Bool
  pub env : Env
  pub received : Option ApiMsg
  pub accepts : List Accept

pub data Wait : Type 0 where
  interrupted wait_failed : Wait
  ready : List Ready → Wait

abbrev handled_by : Server × List Effect → Server × List Call
handled_by (s, effects) = (s, map handled effects)

serve : Ready → Server → Server × List Call
serve r s =
    if r.hung_up
    then handled_by (remove_client r.env r.fd s)
    else if r.input
    then handled_by (handle_client r.env r.fd r.received s)
    else (s, [])

module _ (wakeup listen : ℕ) where
  -- The loop over one batch; true if it returns from runLoop.
  run_batch : List Ready → Server → (Server × List Call) × Bool
  unfolding serve
  run_batch [] s = ((s, []), false)
  run_batch (r ∷ rest) s =
      let (s', calls) = if r.fd == listen then (s, handle_accept r.accepts) else serve r s in
      let ((s'', later), done) = run_batch rest s' in
      if r.fd == wakeup then ((s, []), true) else ((s'', calls ++ later), done)

  -- The end of the list is the test of `running_` that finds it false.
  unfoldable pub run_loop : List Wait → Server → Server × List Call
  unfolding run_batch
  run_loop [] s = (s, [])
  run_loop (interrupted ∷ rest) s = run_loop rest s
  run_loop (wait_failed ∷ rest) s = (s, [])
  run_loop (ready batch ∷ rest) s =
      let ((s', calls), done) = run_batch batch s in
      let (s'', later) = run_loop rest s' in if done then (s', calls) else (s'', calls ++ later)
