-- ===== src/Api/Lifecycle/Loop.antt =====
-- runLoop (api/consumer_api_server.cpp) against the sequence of events that its waits bring.
use wifi_offload_rpi.Prelude.{
  Bool, Bool-cases, List, [], any, arith, if◌then◌else◌, inl, inr, refl, ℕ, ◌++◌, ◌==◌, ◌∙◌, ◌∷◌,
  ◌≡◌,
}
use wifi_offload_rpi.Api.Server.{Env, Server}
use wifi_offload_rpi.Api.Server.Invariant.{Event, hung_up, readable, run, step}
use wifi_offload_rpi.Api.Lifecycle.{
  Ready, Wait, interrupted, ready, run_batch, run_loop, serve, wait_failed,
}
use mathlib.Core.List.{append-nil}

-- The events of one entry: none if it is neither hung up nor readable.
abbrev pub events_of : Ready → List (Env × Event)
events_of r =
    if r.hung_up
    then (r.env, hung_up r.fd) ∷ []
    else if r.input
    then (r.env, readable r.fd r.received) ∷ []
    else []

module _ (wakeup listen : ℕ) where
  -- Up to the entry of the eventfd, those that are not of the listening socket.
  abbrev pub batch_events : List Ready → List (Env × Event)
  batch_events [] = []
  batch_events (r ∷ rest) =
      let later = batch_events rest in
      if r.fd == wakeup then [] else (if r.fd == listen then later else events_of r ++ later)

  abbrev pub wakes : List Ready → Bool
  wakes = any (λ r. r.fd == wakeup)

  -- Up to the batch with the eventfd, or a failure of epoll_wait.
  abbrev pub loop_events : List Wait → List (Env × Event)
  loop_events [] = []
  loop_events (interrupted ∷ rest) = loop_events rest
  loop_events (wait_failed ∷ rest) = []
  loop_events (ready batch ∷ rest) =
      let later = loop_events rest in batch_events batch ++ (if wakes batch then [] else later)

  run-append : (xs ys : List (Env × Event)) (s : Server) → run (xs ++ ys) s ≡ run ys (run xs s)
  unfolding run
  run-append [] ys s = refl
  run-append ((env, ev) ∷ xs) ys s = run-append xs ys (step env ev s).0

  serve-run : (r : Ready) (s : Server) → (serve r s).0 ≡ run (events_of r) s
  unfolding serve run step
  serve-run r s = ground arith

  run_batch-run :
      (batch : List Ready) (s : Server)
      → ((run_batch wakeup listen batch s).0.0 ≡ run (batch_events batch) s)
        × ((run_batch wakeup listen batch s).1 ≡ wakes batch)
  unfolding run_batch run
  run_batch-run [] s = (refl, refl)
  run_batch-run (r ∷ rest) s = ground (
    arith,
    serve-run r s,
    run_batch-run rest s,
    run_batch-run rest (serve r s).0,
    run-append (events_of r) (batch_events rest) s,
  )

  -- The server that runLoop leaves is the one that the events of its waits make of it, in their
  -- order: those of a client's descriptor, a hang-up before input, up to the first entry of the
  -- eventfd or a failed wait; interrupted waits, the listening socket and other events change
  -- nothing of the registry.
  pub run_loop-run :
      (waits : List Wait) (s : Server)
      → (run_loop wakeup listen waits s).0 ≡ run (loop_events waits) s
  unfolding run_loop run
  run_loop-run [] s = refl
  run_loop-run (interrupted ∷ rest) s = run_loop-run rest s
  run_loop-run (wait_failed ∷ rest) s = refl
  run_loop-run (ready batch ∷ rest) s = elim (Bool-cases (wakes batch)) [
    | inl returns ↦ rw (done ∙ returns, returns, append-nil) (run_batch-run batch s).0
    | inr waiting ↦
        rw (done ∙ waiting, waiting, run-append (batch_events batch) (loop_events rest) s)
          (rw (← (run_batch-run batch s).0)
            (run_loop-run rest (run_batch wakeup listen batch s).0.0))
  ]
    where
      done : (run_batch wakeup listen batch s).1 ≡ wakes batch
      done = (run_batch-run batch s).1
