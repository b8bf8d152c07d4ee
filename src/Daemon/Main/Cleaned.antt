-- ===== src/Daemon/Main/Cleaned.antt =====
-- What the daemon (main.cpp) leaves in the kernel, however it ends.
use wifi_offload_rpi.Prelude.{All, List, Option, Text, ok, refl, sym, unexpected, ◌≡◌}
use wifi_offload_rpi.Types.{PathClassConfig}
use wifi_offload_rpi.Daemon.Main.{
  Course, Machine, Outcome, Platform, cgroups_phase, configured, drop_phase, endpoints_phase,
  failure, finish, main, marks_phase, or_cleanup, parse_args, rules_phase, serve_or_fail,
  serve_phase,
}
use wifi_offload_rpi.Daemon.{World}
use wifi_offload_rpi.Config.{load_from_file}
use wifi_offload_rpi.Mptcp.{add_endpoints}
use wifi_offload_rpi.Routing.Netlink.{Result, add_ip_rules}
use wifi_offload_rpi.Routing.Netlink.Removal.{HasNoRule, RemovalLaws, remove_ip_rules-HasNoRule}
use wifi_offload_rpi.Routing.Cgroups.{create_cgroup_hierarchy}
use wifi_offload_rpi.Routing.Cleanup.{cleanup}
use wifi_offload_rpi.Api.Lifecycle.{Started}
use wifi_offload_rpi.Fsm.{PathStateFsm}
use mathlib.Core.Path.{subst}

module _ (platform : Platform) (socket_path : Text) (course : Course platform)
    (classes : List PathClassConfig) where
  open platform use {netlink, genl, iptc, files, json, word_bits, layout}

  -- The last thing done to the kernel is cleanup.
  abbrev IsCleaned : Outcome platform → Type 0
  IsCleaned o = (m : Machine platform) × (o.machine ≡ cleanup netlink iptc files classes m)

  or_cleanup-IsCleaned :
      {A : Type 0} (m : Machine platform) (r : Result A) (next : A → Outcome platform)
      → ((a : A) → IsCleaned (next a))
      → IsCleaned (or_cleanup platform classes m r next)
  unfolding or_cleanup failure
  or_cleanup-IsCleaned m (ok a) next h = h a
  or_cleanup-IsCleaned m (unexpected e) next h = (m, refl)

  serve_or_fail-IsCleaned :
      (started : Started) (w : List PathStateFsm × World netlink.Net) (m : Machine platform)
      → IsCleaned (serve_or_fail platform socket_path course classes started w m)
  unfolding serve_or_fail finish
  serve_or_fail-IsCleaned (unexpected e, (l, calls)) (fsms, w) m = (_, refl)
  serve_or_fail-IsCleaned (ok u, (l, calls)) (fsms, w) m = (_, refl)

  endpoints_phase-IsCleaned :
      (m : Machine platform) → IsCleaned (endpoints_phase platform socket_path course classes m)
  unfolding endpoints_phase serve_phase
  endpoints_phase-IsCleaned m =
      or_cleanup-IsCleaned _ (add_endpoints netlink genl classes m.net).0 _
        (λ u. serve_or_fail-IsCleaned _ _ _)

  drop_phase-IsCleaned :
      (m : Machine platform) → IsCleaned (drop_phase platform socket_path course classes m)
  unfolding drop_phase
  drop_phase-IsCleaned m = or_cleanup-IsCleaned m _ _ (λ tables. endpoints_phase-IsCleaned _)

  rules_phase-IsCleaned :
      (m : Machine platform) → IsCleaned (rules_phase platform socket_path course classes m)
  unfolding rules_phase
  rules_phase-IsCleaned m =
      or_cleanup-IsCleaned _ (add_ip_rules netlink classes m.net).0 _ (λ u. drop_phase-IsCleaned _)

  marks_phase-IsCleaned :
      (m : Machine platform) → IsCleaned (marks_phase platform socket_path course classes m)
  unfolding marks_phase
  marks_phase-IsCleaned m = or_cleanup-IsCleaned m _ _ (λ tables. rules_phase-IsCleaned _)

  main-IsCleaned :
      (argv : List Text) (read : Text → Option Text) (m : Machine platform)
      → load_from_file json word_bits (read (parse_args argv)) ≡ ok classes
      → (create_cgroup_hierarchy files classes m.disk).0 ≡ ok tt
      → IsCleaned (main platform argv read socket_path course m)
  unfolding main configured cgroups_phase
  main-IsCleaned argv read m loaded created =
      rw (main, loaded, configured) (go (create_cgroup_hierarchy files classes m.disk) created)
    where
      go :
          (r : Result (Unit {0}) × files.Disk)
          → r.0 ≡ ok tt
          → IsCleaned (cgroups_phase platform socket_path course classes r m)
      go (ok u, disk) e = marks_phase-IsCleaned _
      go (unexpected x, disk) e = cc

  -- However main ends once the configuration is loaded and createCgroupHierarchy has succeeded, by a
  -- stage that fails, by std::terminate or after a signal, no class has an ip rule left, on a kernel
  -- that answers deletions.
  pub main-HasNoRule :
      (laws : RemovalLaws netlink) (argv : List Text) (read : Text → Option Text)
      (m : Machine platform)
      → load_from_file json word_bits (read (parse_args argv)) ≡ ok classes
      → (create_cgroup_hierarchy files classes m.disk).0 ≡ ok tt
      → All
          (HasNoRule netlink laws (main platform argv read socket_path course m).machine.net)
          classes
  unfolding cleanup
  main-HasNoRule laws argv read m loaded created =
      let (m', e) = main-IsCleaned argv read m loaded created in
      subst (λ x. All (HasNoRule netlink laws x.net) classes) (sym e)
        (remove_ip_rules-HasNoRule netlink laws classes m'.net)
