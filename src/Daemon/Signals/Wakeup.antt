-- ===== src/Daemon/Signals/Wakeup.antt =====
-- Which signals end the main event loop (main.cpp).
use wifi_offload_rpi.Prelude.{Bool, ap, arith, false, refl, suc, true, zero, ℕ, ◌-◌, ◌∙◌, ◌≡◌, ◌≤◌}
use wifi_offload_rpi.Daemon.Signals.{
  Loop, Place, Signal, after_loop, at_reload, at_test, before_pause, deliver_signal, handle_signal,
  in_pause, main_steps, sighup, sigint, sigterm, step_at, woken,
}

-- The loop by its fields, once shutdown is requested.
abbrev ending : Bool → Place → ℕ → Loop
ending reload p reloads = record { shutdown = true; reload = reload; place = p; reloads = reloads }

-- Where a signal that requests shutdown, or comes after one that did, leaves the main thread.
abbrev pub end_of : Place → Place
end_of before_pause = in_pause
end_of p = after_loop

after_loop_stays :
    (n : ℕ) (r : Bool) (k : ℕ) → (main_steps n (ending r after_loop k)).place ≡ after_loop
unfolding main_steps
after_loop_stays zero r k = refl
after_loop_stays (suc n) r k = after_loop_stays n r k

in_pause_stays : (n : ℕ) (r : Bool) (k : ℕ) → (main_steps n (ending r in_pause k)).place ≡ in_pause
unfolding main_steps
in_pause_stays zero r k = refl
in_pause_stays (suc n) r k = in_pause_stays n r k

main_steps-woken :
    (p : Place) (n : ℕ) (r : Bool) (k : ℕ)
    → (main_steps (suc (suc (suc n))) (ending r (woken p) k)).place ≡ end_of p
unfolding main_steps woken
main_steps-woken at_test n r k = after_loop_stays (suc (suc n)) r k
main_steps-woken before_pause n r k = in_pause_stays (suc (suc n)) r k
main_steps-woken in_pause n r k = after_loop_stays (suc n) false _
main_steps-woken at_reload n r k = after_loop_stays (suc n) false _
main_steps-woken after_loop n r k = after_loop_stays (suc (suc (suc n))) r k

main_steps-deliver_signal :
    (s : Signal) (l : Loop) (n : ℕ)
    → (handle_signal s l).shutdown ≡ true
    → 3 ≤ n
    → (main_steps n (deliver_signal s l)).place ≡ end_of l.place
unfolding deliver_signal
main_steps-deliver_signal s l n e h =
    let n_is : n ≡ suc (suc (suc (n - 3))) = omega (arith, h) in
    rw (n_is, e)
      (main_steps-woken l.place (n - 3) (handle_signal s l).reload (handle_signal s l).reloads)

-- The flag of a shutdown stays.
main_steps-shutdown : (n : ℕ) (l : Loop) → (main_steps n l).shutdown ≡ l.shutdown
unfolding main_steps
main_steps-shutdown zero l = refl
main_steps-shutdown (suc n) l = main_steps-shutdown n (step_at l.place l) ∙ kept l.place
  where
    kept : (p : Place) → (step_at p l).shutdown ≡ l.shutdown
    kept at_test = refl
    kept before_pause = refl
    kept in_pause = refl
    kept at_reload = refl
    kept after_loop = refl

handle_signal-shutdown :
    (s : Signal) (l : Loop) → l.shutdown ≡ true → (handle_signal s l).shutdown ≡ true
unfolding handle_signal
handle_signal-shutdown sigterm l e = refl
handle_signal-shutdown sigint l e = refl
handle_signal-shutdown sighup l e = e

requested : (l : Loop) → (handle_signal sigterm l).shutdown ≡ true
unfolding handle_signal
requested l = refl

asked : (l : Loop) → (deliver_signal sigterm l).shutdown ≡ true
unfolding deliver_signal
asked l = requested l

end_of_twice : (p : Place) → end_of (end_of p) ≡ after_loop
end_of_twice at_test = refl
end_of_twice before_pause = refl
end_of_twice in_pause = refl
end_of_twice at_reload = refl
end_of_twice after_loop = refl

-- After SIGTERM the main thread leaves its loop in three steps at most, unless the signal came
-- between the test of gShutdown and pause: then the thread stays in pause, for any number of steps,
-- until another signal comes, which ends the loop whatever it is.
pub main_steps-sigterm :
    (l : Loop) (s : Signal) (n n' : ℕ)
    → 3 ≤ n
    → 3 ≤ n'
    → ((main_steps n (deliver_signal sigterm l)).place ≡ end_of l.place)
      × ((main_steps n' (deliver_signal s (main_steps n (deliver_signal sigterm l)))).place
          ≡ after_loop)
main_steps-sigterm l s n n' h h' =
    let first = main_steps-deliver_signal sigterm l n (requested l) h in
    let l' = main_steps n (deliver_signal sigterm l) in
    let stays : l'.shutdown ≡ true = main_steps-shutdown n (deliver_signal sigterm l) ∙ asked l in
    (
      first,
      main_steps-deliver_signal s l' n' (handle_signal-shutdown s l' stays) h'
          ∙ ap end_of first
          ∙ end_of_twice l.place,
    )
