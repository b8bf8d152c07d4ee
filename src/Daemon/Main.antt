-- ===== src/Daemon/Main.antt =====
-- main.cpp, main and parseArgs: the stages of the start, with what a failing stage takes back, and
-- the end. Threads run between the stages as steps of `run`.
mod Examples
pub mod Cleaned
pub mod Leftover
pub mod Serving
use wifi_offload_rpi.Prelude.{
  Expected, List, Option, Text, [], codes, drop, if◌then◌else◌, is_empty, map, ok, text_eq,
  unexpected, ℕ, ◌++◌, ◌∷◌,
}
use wifi_offload_rpi.Types.{ConfigError, PathClassConfig, WpaEvent}
use wifi_offload_rpi.Config.{Json, load_from_file}
use wifi_offload_rpi.Mptcp.{Genl, add_endpoints, remove_endpoints}
use wifi_offload_rpi.Routing.Entry.{Layout}
use wifi_offload_rpi.Routing.Netlink.{Netlink, Result, add_ip_rules, outcome}
use wifi_offload_rpi.Routing.Iptables.{Iptc, add_drop_rules, add_iptables_mark_rules}
use wifi_offload_rpi.Routing.Cgroups.{Files, create_cgroup_hierarchy}
use wifi_offload_rpi.Routing.Cleanup.{Host, cleanup}
use wifi_offload_rpi.Api.Lifecycle.{
  Call, Listener, StartAnswers, Started, new_listener, start, stop,
}
use wifi_offload_rpi.Fsm.{PathStateFsm}
use wifi_offload_rpi.Daemon.{Happening, Surroundings, World, delivers, new_fsms, new_world, run}

abbrev pub default_config_path : Text
default_config_path = codes "/etc/netservice/path-policies.json"

-- The arguments after the program's name; the last --config counts.
config_path_from : Text → List Text → Text
config_path_from path [] = path
config_path_from path (arg ∷ []) = path
config_path_from path (arg ∷ next ∷ rest) =
    let skipped = config_path_from path (next ∷ rest) in
    let taken = config_path_from next rest in
    if text_eq arg (codes "--config") then taken else skipped

unfoldable pub parse_args : List Text → Text
unfolding config_path_from
parse_args argv = config_path_from default_config_path (drop 1 argv)

-- `terminated`: std::terminate, from the destructor of a thread that was not joined.
pub data Ending : Type 0 where
  exit_success exit_failure terminated : Ending

-- The libraries and the kernel behind them.
pub record Platform : Type 1 where
  pub netlink : Netlink
  pub genl : Genl netlink.Net
  pub iptc : Iptc
  pub files : Files
  pub json : Json
  pub word_bits : ℕ
  pub layout : Layout

module _ (platform : Platform) where
  open platform use {netlink, genl, iptc, files, json, word_bits, layout}

  abbrev pub Machine : Type 0
  Machine = Host netlink iptc files

  pub record Outcome : Type 0 where
    pub ending : Ending
    pub machine : Machine
    -- the calls of the server's start and stop
    pub calls : List Call

  failure : Machine → Outcome
  failure m = record { ending = exit_failure; machine = m; calls = [] }

  -- The early return of a stage after the cgroups.
  or_cleanup : {A : Type 0} → List PathClassConfig → Machine → Result A → (A → Outcome) → Outcome
  unfolding failure
  or_cleanup classes m (unexpected e) next = failure (cleanup netlink iptc files classes m)
  or_cleanup classes m (ok a) next = next a

  -- What the world does while the daemon runs: the answers to the server's start, the events of the
  -- monitors before it, and all steps from then to the signal.
  pub record Course : Type 0 where
    pub answers : StartAnswers
    pub early : List (Surroundings × (ℕ × WpaEvent))
    pub later : List Happening

  module _ (socket_path : Text) (course : Course) (classes : List PathClassConfig) where
    open course use {answers, early, later}

    abbrev step_of : Surroundings × (ℕ × WpaEvent) → Happening
    step_of (around, (i, ev)) = delivers around i ev

    -- After the signal: the monitors and the server stop, then all is taken back.
    pub finish : Listener → World netlink.Net → Machine → Outcome
    finish l w m =
        let (_, calls) = stop socket_path l w.server in
        record {
          ending = exit_success;
          machine =
              cleanup netlink iptc files classes
                (record m { net = remove_endpoints netlink genl w.net });
          calls = calls;
        }

    -- The threads of the monitors run, and their destructors find them not joined.
    serve_or_fail : Started → List PathStateFsm × World netlink.Net → Machine → Outcome
    unfolding finish
    serve_or_fail (unexpected e, (l, calls)) (fsms, w) m = record {
      ending =
          if is_empty (new_fsms netlink genl word_bits classes) then exit_failure else terminated;
      machine = cleanup netlink iptc files classes (record m { net = w.net });
      calls = calls;
    }
    serve_or_fail (ok u, (l, calls)) (fsms, w) m =
        let (fsms', w') = run netlink genl word_bits classes later fsms w in
        let outcome = finish l w' m in record outcome { calls = calls ++ outcome.calls }

    pub serve_phase : Machine → Outcome
    unfolding serve_or_fail
    serve_phase m =
        serve_or_fail (start socket_path answers new_listener)
          (run netlink genl word_bits classes (map step_of early)
            (new_fsms netlink genl word_bits classes)
            (new_world netlink genl word_bits classes m.net))
          m

    endpoints_phase : Machine → Outcome
    unfolding or_cleanup serve_phase
    endpoints_phase m =
        let (result, net) = add_endpoints netlink genl classes m.net in
        or_cleanup classes (record m { net = net }) result
          (λ u. serve_phase (record m { net = net }))

    drop_phase : Machine → Outcome
    unfolding or_cleanup endpoints_phase
    drop_phase m =
        or_cleanup classes m (add_drop_rules iptc layout classes m.tables)
          (λ tables. endpoints_phase (record m { tables = tables }))

    rules_phase : Machine → Outcome
    unfolding or_cleanup drop_phase
    rules_phase m =
        let (result, net) = add_ip_rules netlink classes m.net in
        or_cleanup classes (record m { net = net }) result
          (λ u. drop_phase (record m { net = net }))

    marks_phase : Machine → Outcome
    unfolding or_cleanup rules_phase
    marks_phase m =
        or_cleanup classes m (add_iptables_mark_rules iptc layout classes m.tables)
          (λ tables. rules_phase (record m { tables = tables }))

    -- A failure here takes nothing back.
    cgroups_phase : Result (Unit {0}) × files.Disk → Machine → Outcome
    unfolding failure marks_phase
    cgroups_phase (unexpected e, disk) m = failure (record m { disk = disk })
    cgroups_phase (ok u, disk) m = marks_phase (record m { disk = disk })

  configured : Text → Course → Expected ConfigError (List PathClassConfig) → Machine → Outcome
  unfolding failure cgroups_phase
  configured socket_path course (unexpected e) m = failure m
  configured socket_path course (ok classes) m =
      cgroups_phase socket_path course classes (create_cgroup_hierarchy files classes m.disk) m

  -- `read` gives the text of a file.
  unfoldable pub main : List Text → (Text → Option Text) → Text → Course → Machine → Outcome
  unfolding configured
  main argv read socket_path course m =
      configured socket_path course (load_from_file json word_bits (read (parse_args argv))) m
