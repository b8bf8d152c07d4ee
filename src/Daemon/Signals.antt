-- ===== src/Daemon/Signals.antt =====
-- main.cpp, handleSignal and the main event loop: the main thread step by step, with the signals that
-- are delivered to it between its steps.
mod Examples
pub mod Wakeup
use wifi_offload_rpi.Prelude.{Bool, false, if◌then◌else◌, suc, true, zero, ℕ}

pub data Signal : Type 0 where
  sigterm sigint sighup : Signal

-- Where the main thread is: at the test of gShutdown, between it and pause, in pause, at the test of
-- gReloadConfig, after the loop.
pub data Place : Type 0 where
  at_test before_pause in_pause at_reload after_loop : Place

pub record Loop : Type 0 where
  pub shutdown : Bool
  pub reload : Bool
  pub place : Place
  -- how often the configuration was read again
  pub reloads : ℕ

abbrev pub new_loop : Loop
new_loop = record { shutdown = false; reload = false; place = at_test; reloads = 0 }

handle_signal : Signal → Loop → Loop
handle_signal sighup l = record l { reload = true }
handle_signal sigterm l = record l { shutdown = true }
handle_signal sigint l = record l { shutdown = true }

-- pause returns once a handler has run.
woken : Place → Place
woken in_pause = at_reload
woken p = p

unfoldable pub deliver_signal : Signal → Loop → Loop
unfolding handle_signal woken
deliver_signal s l = let handled = handle_signal s l in record handled { place = woken l.place }

-- One step of the main thread; pause does not return by itself.
unfoldable pub step_at : Place → Loop → Loop
step_at at_test l = record l { place = if l.shutdown then after_loop else before_pause }
step_at before_pause l = record l { place = in_pause }
step_at in_pause l = l
step_at at_reload l = record l {
  reload = false;
  reloads = if l.reload then suc l.reloads else l.reloads;
  place = at_test;
}
step_at after_loop l = l

unfoldable pub main_steps : ℕ → Loop → Loop
unfolding step_at
main_steps zero l = l
main_steps (suc n) l = main_steps n (step_at l.place l)
