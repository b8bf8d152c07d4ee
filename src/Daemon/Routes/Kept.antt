-- ===== src/Daemon/Routes/Kept.antt =====
-- The default routes of all classes under the steps of all threads (main.cpp).
use wifi_offload_rpi.Prelude.{
  All, List, Text, [], ap, false, is_empty, map, refl, suc, sym, zero, ℕ, ◌∙◌, ◌∷◌, ◌≡◌, ◌≢◌,
}
use wifi_offload_rpi.Types.{PathClassConfig, WpaEvent}
use wifi_offload_rpi.Daemon.Cache.{on_event, on_event-config}
use wifi_offload_rpi.Config.Unique.{IsApart}
use wifi_offload_rpi.Daemon.{
  Happening, Surroundings, World, deliver, delivers, hangs_up, happen, reads, run,
}
use wifi_offload_rpi.Daemon.RouteCalls.{EndpointsApart}
use wifi_offload_rpi.Fsm.{PathStateFsm}
use wifi_offload_rpi.Daemon.Agreement.{All-mono}
use wifi_offload_rpi.Fsm.Routes.{IsAlive}
use wifi_offload_rpi.Mptcp.{Genl}
use wifi_offload_rpi.Routing.Netlink.{Netlink}
use wifi_offload_rpi.Routing.Netlink.Routes.{RouteLaws}
use wifi_offload_rpi.Daemon.Routes.{IsOwned, on_event-IsOwned, on_event-others, watched_iface}

abbrev pub configs_of : List PathStateFsm → List PathClassConfig
configs_of = map (λ fsm. fsm.config)

abbrev pub tables_of : List PathClassConfig → List ℕ
tables_of = map (λ c. c.routing_table)

-- The interface of the monitor with the given position.
abbrev pub monitored : ℕ → List PathClassConfig → Text
monitored i [] = []
monitored zero (c ∷ cs) = watched_iface c.interfaces
monitored (suc i) (c ∷ cs) = monitored i cs

-- A step in which a monitor delivers what its interface's wpa_supplicant says, which is not its end.
abbrev pub IsMonitored : List PathClassConfig → Happening → Type 0
IsMonitored classes (delivers around i ev) = (ev.iface ≡ monitored i classes) × IsAlive ev
IsMonitored classes (reads env fd msg) = Unit
IsMonitored classes (hangs_up env fd) = Unit

abbrev pub IsNamed : PathClassConfig → Type 0
IsNamed c = is_empty (watched_iface c.interfaces) ≡ false

-- Only the route of the machine's own table matters to it.
module _ (netlink : Netlink) (laws : RouteLaws netlink) (net net' : netlink.Net) where
  IsOwned-framed :
      (fsm : PathStateFsm)
      → laws.default_of fsm.config.routing_table net' ≡ laws.default_of fsm.config.routing_table net
      → IsOwned netlink laws net fsm
      → IsOwned netlink laws net' fsm
  IsOwned-framed fsm e h = record { cleared = h.cleared; owned = rw e h.owned }

  All-IsOwned-framed :
      (tables : List ℕ) (fsms : List PathStateFsm)
      → ((table : ℕ)
          → All (λ own. own ≢ table) tables
          → laws.default_of table net' ≡ laws.default_of table net)
      → All (λ table. All (λ own. own ≢ table) tables) (tables_of (configs_of fsms))
      → All (IsOwned netlink laws net) fsms
      → All (IsOwned netlink laws net') fsms
  All-IsOwned-framed tables [] f a h = tt
  All-IsOwned-framed tables (fsm ∷ fsms) f a h = (
    IsOwned-framed fsm (f fsm.config.routing_table a.0) h.0,
    All-IsOwned-framed tables fsms f a.1 h.1,
  )

module _ (netlink : Netlink) (genl : Genl netlink.Net) (laws : RouteLaws netlink)
    (apart : EndpointsApart netlink genl laws) (word_bits : ℕ) where
  open netlink use {Net}

  -- What one event does to the machines and to the kernel.
  record IsDelivered (fsms fsms' : List PathStateFsm) (net net' : Net) : Type 0 where
    same_configs : configs_of fsms' ≡ configs_of fsms
    all_owned : All (IsOwned netlink laws net') fsms'
    others_kept :
        (table : ℕ)
        → All (λ own. own ≢ table) (tables_of (configs_of fsms))
        → laws.default_of table net' ≡ laws.default_of table net

  deliver-IsDelivered :
      (around : Surroundings) (classes : List PathClassConfig) (i : ℕ) (ev : WpaEvent)
      (fsms : List PathStateFsm) (w : World Net)
      → IsApart (tables_of (configs_of fsms))
      → All IsNamed (configs_of fsms)
      → ev.iface ≡ monitored i (configs_of fsms)
      → IsAlive ev
      → All (IsOwned netlink laws w.net) fsms
      → let (fsms', w') = deliver netlink genl word_bits around classes i ev fsms w in
        IsDelivered fsms fsms' w.net w'.net
  unfolding deliver on_event
  deliver-IsDelivered around classes i ev [] w a n own alive h = record {
    same_configs = refl;
    all_owned = tt;
    others_kept = λ table differs. refl;
  }
  deliver-IsDelivered around classes zero ev (fsm ∷ fsms) w a n own alive h = record {
    same_configs =
        ap (λ c. c ∷ configs_of fsms)
          (on_event-config netlink genl word_bits around classes ev fsm w);
    all_owned = (
      on_event-IsOwned netlink genl laws apart word_bits around classes ev fsm w n.0 own alive h.0,
      All-IsOwned-framed netlink laws w.net _ (fsm.config.routing_table ∷ []) fsms
          (λ table differs.
            on_event-others netlink genl laws apart word_bits around classes ev fsm w table
              differs.0)
          (All-mono _ (λ table. All (λ own. own ≢ table) (fsm.config.routing_table ∷ []))
            (tables_of (configs_of fsms)) (λ table differs. (differs, tt)) a.0)
          h.1,
    );
    others_kept = λ table differs.
        on_event-others netlink genl laws apart word_bits around classes ev fsm w table differs.0;
  }
  deliver-IsDelivered around classes (suc i) ev (fsm ∷ fsms) w a n own alive h =
      let rest = deliver-IsDelivered around classes i ev fsms w a.1 n.1 own alive h.1 in
      record {
        same_configs = ap (λ cs. fsm.config ∷ cs) rest.same_configs;
        all_owned = (
          IsOwned-framed netlink laws w.net _ fsm
              (rest.others_kept fsm.config.routing_table (
                All-mono _ (λ own. own ≢ fsm.config.routing_table) (tables_of (configs_of fsms))
                  (λ table differs e. differs (sym e)) a.0))
              h.0,
          rest.all_owned,
        );
        others_kept = λ table differs. rest.others_kept table differs.1;
      }

  module _ (classes : List PathClassConfig) where
    -- The machines of the classes, which own the default routes of their tables.
    abbrev pub IsKept : List PathStateFsm → Net → Type 0
    IsKept fsms net = (configs_of fsms ≡ classes) × All (IsOwned netlink laws net) fsms

    happen-IsKept :
        (step : Happening) (fsms : List PathStateFsm) (w : World Net)
        → IsApart (tables_of classes)
        → All IsNamed classes
        → IsMonitored classes step
        → IsKept fsms w.net
        → let (fsms', w') = happen netlink genl word_bits classes step fsms w in IsKept fsms' w'.net
    unfolding happen
    happen-IsKept (delivers around i ev) fsms w a n m h =
        let done =
          deliver-IsDelivered around classes i ev fsms w (rw h.0 a) (rw h.0 n) (rw h.0 m.0) m.1
            h.1 in
        (done.same_configs ∙ h.0, done.all_owned)
    happen-IsKept (reads env fd msg) fsms w a n m h = h
    happen-IsKept (hangs_up env fd) fsms w a n m h = h

    pub run-IsKept :
        (steps : List Happening) (fsms : List PathStateFsm) (w : World Net)
        → IsApart (tables_of classes)
        → All IsNamed classes
        → All (IsMonitored classes) steps
        → IsKept fsms w.net
        → let (fsms', w') = run netlink genl word_bits classes steps fsms w in IsKept fsms' w'.net
    unfolding run
    run-IsKept [] fsms w a n m h = h
    run-IsKept (s ∷ steps) fsms w a n m h =
        run-IsKept steps _ _ a n m.1 (happen-IsKept s fsms w a n m.0 h)
