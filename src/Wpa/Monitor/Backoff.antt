-- ===== src/Wpa/Monitor/Backoff.antt =====
-- The sleeps of WpaMonitor::start (wpa/wpa_monitor.cpp) against a count of sleeps.
use wifi_offload_rpi.Prelude.{
  List, Option, Text, [], arith, if◌then◌else◌, map, min, refl, suc, ℕ, ◌*◌, ◌^◌, ◌∷◌, ◌≡◌,
}
use wifi_offload_rpi.Types.{WpaEvent}
use wifi_offload_rpi.Wpa.Monitor.{
  Attempt, Outcome, attach_failed, attached, connect, max_backoff, open_failed, reconnect, start,
}
use native.Mathlib.Nat.{pow-suc}

-- How many sleeps there have been since the last connection, or since the start, after a round
-- before which there had been `j`.
abbrev sleeps_before : Outcome → ℕ → ℕ
sleeps_before open_failed j = j
sleeps_before attach_failed j = j
sleeps_before (attached polls) j = 0

-- That count before each sleep, up to the round in which the stop flag is seen.
unfoldable pub streaks : ℕ → List Attempt → List ℕ
streaks j [] = []
streaks j (a ∷ rest) =
    let later = streaks (suc (sleeps_before a.outcome j)) rest in
    if a.stop_seen then [] else sleeps_before a.outcome j ∷ later

-- 1, 2, 4, 8, 16, 30, 30, ... seconds.
abbrev pub backoff_of : ℕ → ℕ
backoff_of j = min (2 ^ j) max_backoff

backoff_of-suc : (j : ℕ) → min (backoff_of j * 2) max_backoff ≡ backoff_of (suc j)
backoff_of-suc j = omega (arith, pow-suc 2 j)

module _ {W : Type 0} (callback : Option (WpaEvent → W → W)) (iface : Text) where
  connect-backoff :
      (o : Outcome) (j : ℕ) (w : W)
      → (connect callback iface o (backoff_of j) w).1 ≡ backoff_of (sleeps_before o j)
  unfolding connect
  connect-backoff open_failed j w = refl
  connect-backoff attach_failed j w = refl
  connect-backoff (attached polls) j w = refl

  reconnect-streaks :
      (attempts : List Attempt) (j : ℕ) (w : W)
      → (reconnect callback iface attempts (backoff_of j) w).1 ≡ map backoff_of (streaks j attempts)
  unfolding reconnect streaks
  reconnect-streaks [] j w = refl
  reconnect-streaks (a ∷ rest) j w = ground (
    arith,
    connect-backoff a.outcome j w,
    backoff_of-suc (sleeps_before a.outcome j),
    reconnect-streaks rest (suc (sleeps_before a.outcome j))
        (connect callback iface a.outcome (backoff_of j) w).0,
  )

-- After each round in which the stop flag is not seen the monitor asks for a sleep of min (2 ^ j, 30)
-- seconds, where j counts the earlier sleeps since the end of the last connection that was made, or since the
-- start if none was: 1 s after a connection and after the first failure from the start, then twice
-- the sleep before.
pub start-streaks :
    {W : Type 0} (callback : Option (WpaEvent → W → W)) (iface : Text) (attempts : List Attempt)
    (w : W)
    → (start callback iface attempts w).1 ≡ map backoff_of (streaks 0 attempts)
unfolding start
start-streaks callback iface attempts w = reconnect-streaks callback iface attempts 0 w
