-- ===== src/Daemon/Routes/Steered.antt =====
-- When a class has a default route (main.cpp, routing/routing_policy_manager.cpp).
use wifi_offload_rpi.Prelude.{
  All, Bool-cases, List, Text, [], ap, false, inl, inr, is_empty, map, none, refl, some, sym, true,
  ℕ, ◌∙◌, ◌∷◌, ◌≡◌, ◌⊎◌,
}
use wifi_offload_rpi.Types.{PathClassConfig}
use wifi_offload_rpi.Daemon.{Happening, new_fsms, new_world, run}
use wifi_offload_rpi.Daemon.RouteCalls.{EndpointsApart}
use wifi_offload_rpi.Fsm.{PathStateFsm, is_down_state, new_fsm}
use wifi_offload_rpi.Config.Schema.{IsFilled, IsLoaded, IsWellFormed}
use wifi_offload_rpi.Daemon.Agreement.{new_fsms-loaded}
use wifi_offload_rpi.Mptcp.{Genl}
use wifi_offload_rpi.Routing.Netlink.{Netlink}
use wifi_offload_rpi.Routing.Netlink.Routes.{RouteLaws}
use wifi_offload_rpi.Daemon.Routes.{IsOwned, watched_iface}
use wifi_offload_rpi.Daemon.Routes.Kept.{IsMonitored, IsNamed, configs_of, run-IsKept}

-- No default route in the machine's table, or one through the class's first interface and the path
-- is PathUp or PathDegraded.
abbrev pub IsSteered : (netlink : Netlink) → RouteLaws netlink → netlink.Net → PathStateFsm → Type 0
IsSteered netlink laws net fsm =
    let found = laws.default_of fsm.config.routing_table net in
    (found ≡ none)
    ⊎ ((found ≡ some (watched_iface fsm.config.interfaces)) × (is_down_state fsm.state ≡ false))

IsOwned-IsSteered :
    (netlink : Netlink) (laws : RouteLaws netlink) (net : netlink.Net) (fsm : PathStateFsm)
    → IsNamed fsm.config
    → IsOwned netlink laws net fsm
    → IsSteered netlink laws net fsm
IsOwned-IsSteered netlink laws net fsm n h = elim h.owned [
  | inl absent ↦ inl absent
  | inr (present, same) ↦ elim (Bool-cases (is_down_state fsm.state)) [
    | inl down ↦
        let empty : watched_iface fsm.config.interfaces ≡ [] = sym same ∙ h.cleared down in
        let clash : true ≡ false = sym (ap is_empty empty) ∙ n in cc
    | inr live ↦ inr (present, live)
  ]
]

All-IsSteered :
    (netlink : Netlink) (laws : RouteLaws netlink) (net : netlink.Net) (fsms : List PathStateFsm)
    → All IsNamed (configs_of fsms)
    → All (IsOwned netlink laws net) fsms
    → All (IsSteered netlink laws net) fsms
All-IsSteered netlink laws net [] n h = tt
All-IsSteered netlink laws net (fsm ∷ fsms) n h =
    (IsOwned-IsSteered netlink laws net fsm n.0 h.0, All-IsSteered netlink laws net fsms n.1 h.1)

front_named :
    (ifaces : List Text)
    → is_empty ifaces ≡ false
    → All IsFilled ifaces
    → is_empty (watched_iface ifaces) ≡ false
front_named [] h a = cc
front_named (iface ∷ rest) h a = a.0

IsWellFormed-IsNamed : (cs : List PathClassConfig) → All IsWellFormed cs → All IsNamed cs
IsWellFormed-IsNamed [] h = tt
IsWellFormed-IsNamed (c ∷ cs) h =
    (front_named c.interfaces h.0.attached h.0.interfaces_named, IsWellFormed-IsNamed cs h.1)

module _ (netlink : Netlink) (genl : Genl netlink.Net) (laws : RouteLaws netlink)
    (apart : EndpointsApart netlink genl laws) (word_bits : ℕ) where
  HasNoRoute : netlink.Net → PathClassConfig → Type 0
  HasNoRoute net c = laws.default_of c.routing_table net ≡ none

  new_fsms-IsOwned :
      (cs : List PathClassConfig) (net : netlink.Net)
      → All (HasNoRoute net) cs
      → (configs_of (map new_fsm cs) ≡ cs) × All (IsOwned netlink laws net) (map new_fsm cs)
  unfolding new_fsm HasNoRoute
  new_fsms-IsOwned [] net h = (refl, tt)
  new_fsms-IsOwned (c ∷ cs) net h =
      let (configs, rest) = new_fsms-IsOwned cs net h.1 in
      (ap (λ ds. c ∷ ds) configs, (record { cleared = λ down. refl; owned = inl h.0 }, rest))

  -- On a kernel whose route socket works, for a configuration that the loader accepts and tables
  -- that are empty at first: whatever the steps of the monitors and of the clients, in any order, as
  -- long as no wpa_supplicant announces its end, there is a machine for each class, and the table of
  -- a class has a default route only while the path of the class is PathUp or PathDegraded, and then
  -- through the class's first interface.
  pub run-new_fsms-IsSteered :
      (classes : List PathClassConfig) (net : netlink.Net) (steps : List Happening)
      → IsLoaded classes
      → All (λ c. laws.default_of c.routing_table net ≡ none) classes
      → All (IsMonitored classes) steps
      → let (fsms, w) =
          run netlink genl word_bits classes steps
            (new_fsms netlink genl word_bits classes)
            (new_world netlink genl word_bits classes net) in
        (map (λ fsm. fsm.config) fsms ≡ classes) × All (IsSteered netlink laws w.net) fsms
  unfolding new_world HasNoRoute
  run-new_fsms-IsSteered classes net steps loaded empty m =
      let named = IsWellFormed-IsNamed classes loaded.well_formed in
      let start = new_fsms-IsOwned classes net empty in
      let (configs, all_owned) =
        run-IsKept netlink genl laws apart word_bits classes steps _
          (new_world netlink genl word_bits classes net) loaded.tables_apart named m
          (rw (new_fsms-loaded netlink genl word_bits classes loaded.well_formed) start) in
      (configs, All-IsSteered netlink laws _ _ (rw configs named) all_owned)
