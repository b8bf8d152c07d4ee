-- ===== src/Lib.antt =====
-- wifi-offload-manager: a daemon that steers the traffic of consumer processes over WiFi and LTE.
-- A configuration names path classes. For each class the daemon watches wpa_supplicant, keeps the
-- state of the path in a machine, installs or removes the default route of the class, and tells
-- the consumers that registered for the class over a local socket. iptables rules mark the
-- traffic of a class by its cgroup and drop what strict isolation forbids.
--
-- The paths below are relative to wifi-offload-manager/src.
-- Types: common/types.hpp and common/error.hpp; Types.Names has the overloads of toString.
-- Fsm: fsm/path_state_fsm.cpp. `on_wpa_event` is onWpaEvent, `transition` is transition; the
--   callbacks are functions on a world of any type. Fsm.Table has the transitions as a
--   relation, Fsm.Routes the routes that the callbacks install, Fsm.Notices the notices.
-- Wpa: wpa/wpa_monitor.cpp. Wpa.Parse is parseEvent; Wpa.Monitor is start, runEventLoop and
--   handleEvent over a script of what the sockets answer; Wpa.Shutdown is start, stop and the
--   destructor as steps of two threads that share the stop flag.
-- Api: api/consumer_api_server.cpp. Api.Wire has the messages and, in Frame, their 96 bytes;
--   Api.Server the handlers; what a handler sends, closes or writes to a cgroup is a list of
--   effects. Api.Server.Invariant is the loop over its events. Api.Transfer has sendMsg, trySendMsg
--   and recvMsg over a socket that moves a part at a time, Api.Session handleClient with its
--   transfers on one; Api.Lifecycle has start, stop, runLoop and handleAccept with the descriptors
--   that they open and close.
-- Config: config/config_loader.cpp. `load_from_file` is loadFromFile, over a record `Json` of the
--   JSON library's operations. Config.Hex is std::stoul with base 0, which the code relies on;
--   Config.Field is parseHexField on the form that the daemon writes.
-- Routing: routing/routing_policy_manager.cpp. Routing.Entry builds the rule entries,
--   Routing.DropRules computes the isolation rules, Routing.Iptables runs libiptc, Routing.Netlink
--   has the ip rules and the default routes, Routing.Gateway reads /proc/net/route, whose format
--   Gateway.Table states, Routing.Cgroups has setupOneClass over a file system, in which an
--   insertion fills a stream's buffer and the end of the stream writes the file; Routing.Cleanup is
--   cleanup. Iptables.Install and Removal, Netlink.IpRules, Removal and Routes, and Cgroups.NetCls
--   state the laws of what they call.
-- Mptcp: mptcp/mptcp_manager.cpp, the endpoints over generic netlink.
-- Daemon: main.cpp. `callbacks_of` has the callbacks of a class's machine, which call the
--   routing, the endpoints and the server; `run` takes the steps of all threads in the order in
--   which they take effect, an event with its callbacks as one step. Daemon.Routes follows the
--   default routes of the kernel through these steps. Daemon.Main has parseArgs and the stages of
--   main up to its end; Daemon.Signals has handleSignal and the main loop, step by step.
-- Prelude: numbers, signed integers, lists, texts and results that all parts share.
--
-- A text is a list of bytes; `int` is ℤ with its range where the code parses it, `uint32_t` is ℕ
-- below 2 ^ 32. Loops run over a list: the events, the script of the sockets' answers, the
-- entries of the configuration, the bytes of a text. The loops of Api.Transfer have fuel, 96
-- rounds: each round moves a byte at least, and a message has 96. The threads of Wpa.Shutdown and
-- Daemon.Signals run for any number of steps.
--
-- Taken as parameters: libiptc and the sizes of the kernel's structs, libmnl and the kernel
-- behind it, nlohmann::json, the width of unsigned long, the sockets of wpa_supplicant and of the
-- consumers, the system calls of the server's start, std::filesystem with the file streams,
-- whether a cgroup file opens. An exchange over netlink is one answer: how far it came, and the
-- kernel's errno.
--
-- Not modelled: the log; the bytes of netlink messages, which libmnl lays out; the watchdog thread
-- and systemd's notices; signals that another thread than the main one takes; the client library
-- of wpa_supplicant, which is a copy.
mod Prelude
pub mod Types
pub mod Fsm
pub mod Wpa
pub mod Api
pub mod Config
pub mod Routing
pub mod Mptcp
pub mod Daemon
