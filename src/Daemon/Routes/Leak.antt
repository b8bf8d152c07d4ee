-- ===== src/Daemon/Routes/Leak.antt =====
-- What a path's end in wpa_supplicant does to the kernel: onWpaEvent (fsm/path_state_fsm.cpp) with the
-- callbacks of main.cpp.
use wifi_offload_rpi.Prelude.{
  Bool, List, Option, Text, [], arith, false, none, refl, some, suc, zero, ℕ, ℤ, ◌&&◌, ◌||◌, ◌∙◌,
  ◌∷◌, ◌≡◌,
}
use wifi_offload_rpi.Types.{
  PathClassConfig, PathState, RssiThresholds, WpaEvent, disconnected, idle, path_degraded,
  path_down, path_up, state_eq, terminating,
}
use wifi_offload_rpi.Fsm.{PathStateFsm, next_state, on_wpa_event, transition}
use wifi_offload_rpi.Mptcp.{Genl}
use wifi_offload_rpi.Routing.Netlink.{Netlink}
use wifi_offload_rpi.Daemon.{
  Surroundings, World, callbacks_of, deliver, delivers, run, state_changed,
}

-- The state of the machine at a position.
abbrev pub state_at : ℕ → List PathStateFsm → Option PathState
state_at i [] = none
state_at zero (fsm ∷ fsms) = some fsm.state
state_at (suc i) (fsm ∷ fsms) = state_at i fsms

-- A transition on which neither onPathUp nor onPathDown is called.
abbrev is_loud : PathState → PathState → Bool
is_loud from to =
    state_eq to path_up
    || (state_eq to path_down && (state_eq from path_up || state_eq from path_degraded))

some_inj : {A : Type 0} {a b : A} → some a ≡ some b → a ≡ b
some_inj e = cc

module _ (netlink : Netlink) (genl : Genl netlink.Net) (word_bits : ℕ)
    (classes : List PathClassConfig) where
  open netlink use {Net}

  transition-quiet :
      (around : Surroundings) (to : PathState) (iface : Text) (rssi : ℤ) (fsm : PathStateFsm)
      (w : World Net)
      → is_loud fsm.state to ≡ false
      → let (fsm', w') =
          transition
            (callbacks_of netlink genl word_bits around classes fsm.config)
            to
            iface
            rssi
            fsm
            w in
        (fsm'.state ≡ to) × (w'.net ≡ w.net)
  unfolding transition callbacks_of state_changed
  transition-quiet around to iface rssi fsm w q = ground arith

  deliver-quiet :
      (around : Surroundings) (ev : WpaEvent) (from to : PathState)
      → is_loud from to ≡ false
      → ((t : RssiThresholds) → next_state from ev t ≡ to)
      → (i : ℕ) (fsms : List PathStateFsm) (w : World Net) → state_at i fsms ≡ some from
      → let (fsms', w') = deliver netlink genl word_bits around classes i ev fsms w in
        (state_at i fsms' ≡ some to) × (w'.net ≡ w.net)
  unfolding deliver on_wpa_event
  deliver-quiet around ev from to q next i [] w e = cc
  deliver-quiet around ev from to q next zero (fsm ∷ fsms) w e =
      let here : fsm.state ≡ from = some_inj e in
      let same : next_state fsm.state ev fsm.config.rssi ≡ to = rw here (next fsm.config.rssi) in
      let (s, n) = transition-quiet around to ev.iface ev.rssi fsm w (rw here q) in
      rw same (rw s refl, n)
  deliver-quiet around ev from to q next (suc i) (fsm ∷ fsms) w e =
      deliver-quiet around ev from to q next i fsms w e

  -- The leak: whenever the path of a monitor is up, Terminating followed by Disconnected ends in
  -- PathDown with the kernel as it was, so that a default route of the class's table stays in it.
  pub route_leak :
      (around around' : Surroundings) (i : ℕ) (bye gone : WpaEvent) (fsms : List PathStateFsm)
      (w : World Net)
      → bye.type ≡ terminating
      → gone.type ≡ disconnected
      → state_at i fsms ≡ some path_up
      → let (fsms', w') =
          run netlink genl word_bits classes
            (delivers around i bye ∷ delivers around' i gone ∷ [])
            fsms
            w in
        (state_at i fsms' ≡ some path_down) × (w'.net ≡ w.net)
  unfolding run next_state
  route_leak around around' i bye gone fsms w b g up =
      let first = deliver-quiet around bye path_up idle refl (λ t. rw b refl) i fsms w up in
      let (fsms₁, w₁) = deliver netlink genl word_bits around classes i bye fsms w in
      let then =
        deliver-quiet around' gone idle path_down refl (λ t. rw g refl) i fsms₁ w₁ first.0 in
      (then.0, then.1 ∙ first.1)
