-- ===== src/Wpa/Shutdown/Return.antt =====
-- When WpaMonitor::start (wpa/wpa_monitor.cpp) returns after a call of stop.
use wifi_offload_rpi.Prelude.{
  Bool, List, [], ap, arith, false, length, refl, true, ℕ, ◌∷◌, ◌≡◌, ◌≢◌, ◌≤◌,
}
use wifi_offload_rpi.Wpa.Shutdown.{
  Monitor, Position, after_polls, at_loop, at_poll_loop, attaching, before_sleep, detaching,
  not_started, opening, polling, returned, run_alone, sleeping, stop,
}

-- Whether ctrl_ is open at a position of the thread.
abbrev is_open : Position → Bool
is_open attaching = true
is_open at_poll_loop = true
is_open polling = true
is_open detaching = true
is_open p = false

-- ctrl_ is open where the code has it open.
abbrev pub IsConsistent : Monitor → Type 0
IsConsistent m = m.ctrl ≡ is_open m.position

-- The steps that are left after a stop.
abbrev steps_left : Position → ℕ
steps_left not_started = 0
steps_left returned = 0
steps_left at_loop = 1
steps_left opening = 5
steps_left attaching = 4
steps_left at_poll_loop = 3
steps_left polling = 4
steps_left detaching = 2
steps_left after_polls = 1
steps_left before_sleep = 1
steps_left sleeping = 2

-- A monitor by its fields.
abbrev at : Bool → Bool → Position → Monitor
at flag ctrl p = record { stop_requested = flag; ctrl = ctrl; position = p }

run_alone-returned :
    (answers : List Bool) → run_alone answers (at true false returned) ≡ at true false returned
unfolding run_alone
run_alone-returned [] = refl
run_alone-returned (a ∷ rest) = run_alone-returned rest

-- With the flag set, each step leads nearer to the return, whatever the answer.
run_alone-stopped :
    (answers : List Bool) (p : Position)
    → p ≢ not_started
    → steps_left p ≤ length answers
    → run_alone answers (at true (is_open p) p) ≡ at true false returned
unfolding run_alone
run_alone-stopped answers not_started n h = elim (n refl) [ ]
run_alone-stopped answers returned n h = run_alone-returned answers
run_alone-stopped [] at_loop n h = ground arith
run_alone-stopped [] opening n h = ground arith
run_alone-stopped [] attaching n h = ground arith
run_alone-stopped [] at_poll_loop n h = ground arith
run_alone-stopped [] polling n h = ground arith
run_alone-stopped [] detaching n h = ground arith
run_alone-stopped [] after_polls n h = ground arith
run_alone-stopped [] before_sleep n h = ground arith
run_alone-stopped [] sleeping n h = ground arith
run_alone-stopped (a ∷ rest) at_loop n h = run_alone-returned rest
run_alone-stopped (a ∷ rest) after_polls n h = run_alone-returned rest
run_alone-stopped (a ∷ rest) before_sleep n h = run_alone-returned rest
run_alone-stopped (true ∷ rest) opening n h =
    run_alone-stopped rest attaching (λ e. cc) (omega (arith, h))
run_alone-stopped (false ∷ rest) opening n h =
    run_alone-stopped rest before_sleep (λ e. cc) (omega (arith, h))
run_alone-stopped (true ∷ rest) attaching n h =
    run_alone-stopped rest at_poll_loop (λ e. cc) (omega (arith, h))
run_alone-stopped (false ∷ rest) attaching n h =
    run_alone-stopped rest before_sleep (λ e. cc) (omega (arith, h))
run_alone-stopped (true ∷ rest) polling n h =
    run_alone-stopped rest at_poll_loop (λ e. cc) (omega (arith, h))
run_alone-stopped (false ∷ rest) polling n h =
    run_alone-stopped rest detaching (λ e. cc) (omega (arith, h))
run_alone-stopped (a ∷ rest) at_poll_loop n h =
    run_alone-stopped rest detaching (λ e. cc) (omega (arith, h))
run_alone-stopped (a ∷ rest) detaching n h =
    run_alone-stopped rest after_polls (λ e. cc) (omega (arith, h))
run_alone-stopped (a ∷ rest) sleeping n h =
    run_alone-stopped rest at_loop (λ e. cc) (omega (arith, h))

abbrev is_returned : Position → Bool
is_returned returned = true
is_returned p = false

-- Without the flag, no step returns.
run_alone-running :
    (answers : List Bool) (ctrl : Bool) (p : Position)
    → is_returned p ≡ false
    → is_returned (run_alone answers (at false ctrl p)).position ≡ false
unfolding run_alone
run_alone-running [] ctrl p r = r
run_alone-running (a ∷ rest) ctrl not_started r = run_alone-running rest ctrl at_loop refl
run_alone-running (a ∷ rest) ctrl returned r = cc
run_alone-running (a ∷ rest) ctrl at_loop r = run_alone-running rest ctrl opening refl
run_alone-running (true ∷ rest) ctrl opening r = run_alone-running rest true attaching refl
run_alone-running (false ∷ rest) ctrl opening r = run_alone-running rest ctrl before_sleep refl
run_alone-running (true ∷ rest) ctrl attaching r = run_alone-running rest ctrl at_poll_loop refl
run_alone-running (false ∷ rest) ctrl attaching r = run_alone-running rest false before_sleep refl
run_alone-running (a ∷ rest) ctrl at_poll_loop r = run_alone-running rest ctrl polling refl
run_alone-running (true ∷ rest) ctrl polling r = run_alone-running rest ctrl at_poll_loop refl
run_alone-running (false ∷ rest) ctrl polling r = run_alone-running rest ctrl detaching refl
run_alone-running (a ∷ rest) ctrl detaching r = run_alone-running rest false after_polls refl
run_alone-running (a ∷ rest) ctrl after_polls r = run_alone-running rest ctrl before_sleep refl
run_alone-running (a ∷ rest) ctrl before_sleep r = run_alone-running rest ctrl sleeping refl
run_alone-running (a ∷ rest) ctrl sleeping r = run_alone-running rest ctrl at_loop refl

steps_left_le : (p : Position) → steps_left p ≤ 5
steps_left_le p = ground arith

-- When stop is called while start runs, the thread returns from start after at most five more of its
-- steps, whatever wpa_supplicant answers, and ctrl_ is closed then.
pub run_alone-stop :
    (answers : List Bool) (m : Monitor)
    → IsConsistent m
    → m.position ≢ not_started
    → 5 ≤ length answers
    → run_alone answers (stop m)
      ≡ record { stop_requested = true; ctrl = false; position = returned }
unfolding stop
run_alone-stop answers m c n h =
    rw c (run_alone-stopped answers m.position n (omega (arith, h, steps_left_le m.position)))

-- A call of stop before start begins is lost: start clears the flag, and its thread does not return
-- in any number of steps, whatever wpa_supplicant answers.
pub run_alone-early_stop :
    (answers : List Bool) (m : Monitor)
    → m.position ≡ not_started
    → (run_alone answers (stop m)).position ≢ returned
unfolding stop run_alone
run_alone-early_stop answers m e r = not_yet answers (rw e at r)
  where
    not_yet :
        (answers : List Bool) → (run_alone answers (at true m.ctrl not_started)).position ≢ returned
    not_yet [] q = cc
    not_yet (a ∷ rest) q =
        ground (arith, run_alone-running rest m.ctrl at_loop refl, ap is_returned q)
