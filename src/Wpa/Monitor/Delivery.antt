-- ===== src/Wpa/Monitor/Delivery.antt =====
-- Which events reach the callback (wpa/wpa_monitor.cpp, runEventLoop and handleEvent).
use wifi_offload_rpi.Prelude.{
  Bool, Bool-cases, List, Text, [], arith, false, if◌then◌else◌, inl, inr, map, min, refl, some,
  true, ℕ, ◌*◌, ◌++◌, ◌∷◌, ◌≡◌,
}
use wifi_offload_rpi.Types.{
  WpaEvent, WpaEventType, connected, disconnected, other, signal_change, terminating,
}
use wifi_offload_rpi.Wpa.Parse.{parse_event}
use wifi_offload_rpi.Wpa.Monitor.{
  Attempt, Outcome, PollResult, attach_failed, attached, connect, exits_loop, handle_event,
  max_backoff, open_failed, poll_error, poll_interrupted, poll_no_input, poll_timeout, received,
  reconnect, recv_error, run_event_loop, start,
}
use mathlib.Core.List.{foldl}

-- The messages of a connection up to the first failure of poll or of wpa_ctrl_recv.
unfoldable pub messages : List PollResult → List Text
messages [] = []
messages (poll_error ∷ rest) = []
messages (poll_interrupted ∷ rest) = messages rest
messages (poll_timeout ∷ rest) = messages rest
messages (poll_no_input ∷ rest) = messages rest
messages (recv_error ∷ rest) = []
messages (received raw ∷ rest) = raw ∷ messages rest

-- wpa_supplicant announces its end with this event and with no other.
abbrev announces_end : WpaEventType → Bool
announces_end connected = false
announces_end disconnected = false
announces_end signal_change = false
announces_end terminating = true
announces_end other = false

exits_loop_lem : (k : WpaEventType) → exits_loop k ≡ announces_end k
exits_loop_lem connected = refl
exits_loop_lem disconnected = refl
exits_loop_lem signal_change = refl
exits_loop_lem terminating = refl
exits_loop_lem other = refl

-- Events up to Terminating, and that one with them.
unfoldable pub through_terminating : List WpaEvent → List WpaEvent
through_terminating [] = []
through_terminating (ev ∷ evs) =
    ev ∷ (if announces_end ev.type then [] else through_terminating evs)

abbrev pub session_events : Text → List PollResult → List WpaEvent
session_events iface polls =
    through_terminating (map (λ raw. parse_event raw iface) (messages polls))

abbrev outcome_events : Text → Outcome → List WpaEvent
outcome_events iface open_failed = []
outcome_events iface attach_failed = []
outcome_events iface (attached polls) = session_events iface polls

-- The events of every connection, up to the round in which the stop flag is seen.
unfoldable pub delivered : Text → List Attempt → List WpaEvent
delivered iface [] = []
delivered iface (a ∷ rest) =
    outcome_events iface a.outcome ++ (if a.stop_seen then [] else delivered iface rest)

module _ {W : Type 0} (f : WpaEvent → W → W) (iface : Text) where
  feed : W → WpaEvent → W
  feed w ev = f ev w

  run_event_loop-events :
      (polls : List PollResult) (w : W)
      → run_event_loop (some f) iface polls w ≡ foldl feed w (session_events iface polls)
  unfolding run_event_loop handle_event messages through_terminating feed
  run_event_loop-events [] w = refl
  run_event_loop-events (poll_error ∷ rest) w = refl
  run_event_loop-events (poll_interrupted ∷ rest) w = run_event_loop-events rest w
  run_event_loop-events (poll_timeout ∷ rest) w = run_event_loop-events rest w
  run_event_loop-events (poll_no_input ∷ rest) w = run_event_loop-events rest w
  run_event_loop-events (recv_error ∷ rest) w = refl
  run_event_loop-events (received raw ∷ rest) w =
      elim (Bool-cases (announces_end (parse_event raw iface).type)) [
        | inl done ↦ rw (exits_loop_lem (parse_event raw iface).type, done, if◌then◌else◌) refl
        | inr more ↦
            rw (exits_loop_lem (parse_event raw iface).type, more, if◌then◌else◌)
              (run_event_loop-events rest (f (parse_event raw iface) w))
      ]

  foldl-append :
      (xs ys : List WpaEvent) (w : W) → foldl feed w (xs ++ ys) ≡ foldl feed (foldl feed w xs) ys
  foldl-append [] ys w = refl
  foldl-append (x ∷ xs) ys w = foldl-append xs ys (feed w x)

  connect-events :
      (o : Outcome) (backoff : ℕ) (w : W)
      → (connect (some f) iface o backoff w).0 ≡ foldl feed w (outcome_events iface o)
  unfolding connect
  connect-events open_failed backoff w = refl
  connect-events attach_failed backoff w = refl
  connect-events (attached polls) backoff w = run_event_loop-events polls w

  reconnect-delivered :
      (attempts : List Attempt) (backoff : ℕ) (w : W)
      → (reconnect (some f) iface attempts backoff w).0 ≡ foldl feed w (delivered iface attempts)
  unfolding reconnect delivered
  reconnect-delivered [] backoff w = refl
  reconnect-delivered (a ∷ rest) backoff w =
      let (w', held) = connect (some f) iface a.outcome backoff w in
      ground (
        arith,
        connect-events a.outcome backoff w,
        foldl-append (outcome_events iface a.outcome) [] w,
        foldl-append (outcome_events iface a.outcome) (delivered iface rest) w,
        reconnect-delivered rest (min (held * 2) max_backoff) w',
      )

-- The callback is called on the parsed messages of every connection and on nothing else, in order:
-- of each connection up to its first failed poll or read, and no further than a Terminating event,
-- which is delivered too; rounds after the one in which the stop flag is seen deliver nothing.
pub start-delivered :
    {W : Type 0} (f : WpaEvent → W → W) (iface : Text) (attempts : List Attempt) (w : W)
    → (start (some f) iface attempts w).0 ≡ foldl (λ w' ev. f ev w') w (delivered iface attempts)
unfolding start feed
start-delivered f iface attempts w = reconnect-delivered f iface attempts _ w
