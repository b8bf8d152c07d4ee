-- ===== src/Daemon/Main/Examples.antt =====
-- The daemon with one class, whose server cannot have an eventfd.
use wifi_offload_rpi.Prelude.{
  All, Bool, Bool-cases, Expected, List, Option, Text, [], any, ap, arith, codes, false,
  if◌then◌else◌, inl, inr, keep, none, not, ok, refl, some, sym, text_eq, true, ℕ, ◌&&◌, ◌==◌, ◌∙◌,
  ◌∷◌, ◌≡◌,
}
use wifi_offload_rpi.Types.{ConfigError, PathClassConfig}
use wifi_offload_rpi.Config.{load_from_file}
use wifi_offload_rpi.Routing.Cgroups.Classids.{IsPlaced}
use wifi_offload_rpi.Routing.Examples.{arm64, rule_kernel, rule_laws, rules_stay, toy, toy_laws}
use wifi_offload_rpi.Routing.Cgroups.Examples.{files_laws, toy_files}
use wifi_offload_rpi.Daemon.Main.{
  Course, Machine, Platform, exit_success, main, parse_args, terminated,
}
use wifi_offload_rpi.Mptcp.{Genl, add_addr, add_endpoints, flush_addrs}
use wifi_offload_rpi.Routing.Iptables.{add_drop_rules, add_iptables_mark_rules}
use wifi_offload_rpi.Daemon.{new_fsms}
use wifi_offload_rpi.Routing.Netlink.{
  Exchange, Message, Netlink, accepted, add_ip_rules, add_op, delete_op, eexist, enoent, outcome,
  refused, rule_message,
}
use wifi_offload_rpi.Api.Lifecycle.{StartAnswers, start}
use wifi_offload_rpi.Config.Examples.{json, lte, lte_loaded}
use wifi_offload_rpi.Config.Hex.{
  digit_in, format_hex, hex_digits, is_hex_start, read_digits, stoul, stoul_hex,
}
use wifi_offload_rpi.Routing.Netlink.Removal.{HasNoRule, RemovalLaws}
use wifi_offload_rpi.Routing.Iptables.Examples.{installed, tables}
use wifi_offload_rpi.Routing.Cgroups.{
  cgroup_dir, create_cgroup_hierarchy, existing, file_name, join, parent_path, setup_one_class,
}
use wifi_offload_rpi.Wpa.Parse.Decimal.{decimal}
use wifi_offload_rpi.Daemon.Main.Cleaned.{main-HasNoRule}
use wifi_offload_rpi.Daemon.Main.Serving.{IsReady, PlatformLaws, main-IsReady}
use wifi_offload_rpi.Mptcp.Endpoints.{EndpointLaws}
use mathlib.Core.Path.{subst}

-- A kernel whose rules are a list of marks and tables.
abbrev Pairs : Type 0
Pairs = List (ℕ × ℕ)

abbrev is_pair : ℕ → ℕ → ℕ × ℕ → Bool
is_pair mark table r = (r.0 == mark) && (r.1 == table)

abbrev answer : Message → Pairs → Exchange × Pairs
answer (rule_message add_op flags mark table priority) rules =
    if any (is_pair mark table) rules
    then (refused eexist, rules)
    else (accepted, (mark, table) ∷ rules)
answer (rule_message delete_op flags mark table priority) rules =
    if any (is_pair mark table) rules
    then (accepted, keep (λ r. not (is_pair mark table r)) rules)
    else (refused enoent, rules)
answer m rules = (accepted, rules)

abbrev netlink : Netlink
netlink = record { Net = Pairs; exchange = answer; if_nametoindex = λ name net. 0 }

abbrev genl : Genl Pairs
genl = record {
  get_family = λ net. (accepted, (some 30, net));
  command = λ family c net. (accepted, net);
  getifaddrs = λ net. none;
}

any-keep : (p : ℕ × ℕ → Bool) (rules : Pairs) → any p (keep (λ r. not (p r)) rules) ≡ false
any-keep p [] = refl
any-keep p (r ∷ rules) = elim (Bool-cases (p r)) [
  | inl hit ↦ rw (hit, not) (any-keep p rules)
  | inr miss ↦ rw (miss, miss) (any-keep p rules)
]

keep-none :
    (p q : ℕ × ℕ → Bool) (rules : Pairs) → any p rules ≡ false → any p (keep q rules) ≡ false
keep-none p q [] h = refl
keep-none p q (r ∷ rules) h = ground (arith, keep-none p q rules)

netlink_laws : RemovalLaws netlink
netlink_laws = record {
  has_rule = λ mark table net. any (is_pair mark table) net;
  answered = λ mark table net. elim (Bool-cases (any (is_pair mark table) net)) [
    | inl there ↦ inl (rw there refl)
    | inr gone ↦ inr (rw gone refl)
  ];
  deleted = λ mark table net e. elim (Bool-cases (any (is_pair mark table) net)) [
    | inl there ↦ rw there (any-keep (is_pair mark table) net)
    | inr gone ↦ rw (gone, gone) refl
  ];
  missing = λ mark table net e. elim (Bool-cases (any (is_pair mark table) net)) [
    | inl there ↦ rw there (any-keep (is_pair mark table) net)
    | inr gone ↦ rw (gone, gone) refl
  ];
  stays_gone = λ mark table mark' table' net h. elim (Bool-cases (any (is_pair mark' table') net)) [
    | inl there ↦ rw there (keep-none (is_pair mark table) _ net h)
    | inr gone ↦ rw gone h
  ];
}

abbrev platform : Platform
platform = record {
  netlink = netlink;
  genl = genl;
  iptc = tables;
  files = toy_files;
  json = json;
  word_bits = 64;
  layout = arm64;
}

abbrev argv : List Text
argv = codes "wifi-offload-manager" ∷ codes "--config" ∷ codes "lte.json" ∷ []

abbrev read : Text → Option Text
read path = if text_eq path (codes "lte.json") then some (codes "lte") else none

abbrev no_eventfd : StartAnswers
no_eventfd = record {
  socket = some 3;
  bind_ok = true;
  listen_ok = true;
  epoll_create = some 4;
  eventfd = none;
  add_listen_ok = true;
  add_wakeup_ok = true;
}

abbrev course : Course platform
course = record { answers = no_eventfd; early = []; later = [] }

abbrev machine : Machine platform
machine = record { net = (0x20, 200) ∷ (0x30, 300) ∷ []; tables = installed; disk = ([], []) }

abbrev control_socket : Text
control_socket = codes "/run/control.sock"

-- The rule of the class is gone, and the other one stays.
main-HasNoRule_example :
    All
      (HasNoRule netlink netlink_laws
        (main platform argv read control_socket course machine).machine.net)
      (lte ∷ [])
unfolding parse_args text_eq create_cgroup_hierarchy setup_one_class cgroup_dir join parent_path
    file_name existing decimal stoul stoul_hex read_digits digit_in format_hex is_hex_start
    hex_digits
main-HasNoRule_example =
    main-HasNoRule platform control_socket course (lte ∷ []) netlink_laws argv read machine
      lte_loaded refl

-- The thread of the class's monitor is not joined.
lte_ends : (main platform argv read control_socket course machine).ending ≡ terminated
unfolding main parse_args text_eq create_cgroup_hierarchy setup_one_class cgroup_dir join
    parent_path file_name existing decimal stoul stoul_hex read_digits digit_in format_hex
    is_hex_start hex_digits add_iptables_mark_rules add_ip_rules add_drop_rules add_endpoints
    outcome start new_fsms
lte_ends = rw (main, lte_loaded) refl

-- A kernel that keeps rules, and endpoints as pairs with 0, and tables as the list of their changes.
abbrev endpoint_genl : Genl Pairs
endpoint_genl = record genl {
  command = λ family c net. elim c [
    | add_addr addr ifindex ↦ (accepted, (addr, 0) ∷ net)
    | flush_addrs ↦ (accepted, net)
  ];
}

endpoint_laws : EndpointLaws endpoint_genl
endpoint_laws = record {
  has_endpoint = λ addr net. any (is_pair addr 0) net;
  added = λ f a i net net' e. rw⁻¹ (ap (λ r. r.1) e) (ground arith);
  refused_existing = λ f a i net net' e. cc;
  received_existing = λ f a i net net' e. cc;
  endpoints_kept = λ f a i o net h. ground arith;
  addresses_kept = λ f a i net. refl;
}

abbrev serving_platform : Platform
serving_platform = record {
  netlink = rule_kernel;
  genl = endpoint_genl;
  iptc = toy;
  files = toy_files;
  json = json;
  word_bits = 64;
  layout = arm64;
}

serving_laws : PlatformLaws serving_platform
serving_laws = record {
  iptc_laws = toy_laws;
  rule_laws = rule_laws;
  endpoint_laws = endpoint_laws;
  classid_laws = files_laws;
  rules_untouched = λ mark table. record {
    by_get_family = λ net h. h;
    by_add_addr = λ family addr ifindex net h. rules_stay mark table (addr, 0) net h;
  };
}

abbrev all_well : Course serving_platform
all_well = record { answers = record no_eventfd { eventfd = some 5 }; early = []; later = [] }

abbrev serving_machine : Machine serving_platform
serving_machine = record { net = []; tables = []; disk = ([], []) }

served_well :
    (main serving_platform argv read control_socket all_well serving_machine).ending ≡ exit_success
unfolding main parse_args text_eq create_cgroup_hierarchy setup_one_class cgroup_dir join
    parent_path file_name existing decimal stoul stoul_hex read_digits digit_in format_hex
    is_hex_start hex_digits add_iptables_mark_rules add_ip_rules add_drop_rules add_endpoints
    outcome start new_fsms
served_well = rw (main, lte_loaded) refl

abbrev loaded : List PathClassConfig → Expected ConfigError (List PathClassConfig)
loaded cs = ok cs

-- The file has one class.
one_class :
    (classes : List PathClassConfig)
    → load_from_file json 64 (read (parse_args argv)) ≡ ok classes
    → IsPlaced toy_files serving_laws.classid_laws
        (create_cgroup_hierarchy toy_files classes ([], [])).1
        classes
unfolding parse_args text_eq serving_laws files_laws
one_class classes e =
    subst
      (λ cs.
        IsPlaced toy_files serving_laws.classid_laws
          (create_cgroup_hierarchy toy_files cs ([], [])).1 cs)
      (ok_inj (sym lte_loaded ∙ e)) ((λ dir r. tt), tt, tt)
  where
    ok_inj : {a b : List PathClassConfig} → loaded a ≡ loaded b → a ≡ b
    ok_inj q = cc

main-IsReady_example :
    IsReady serving_platform serving_laws control_socket all_well
      (read (parse_args argv))
      []
      (main serving_platform argv read control_socket all_well serving_machine)
main-IsReady_example =
    main-IsReady serving_platform serving_laws control_socket all_well argv read serving_machine
      one_class served_well
