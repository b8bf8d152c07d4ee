-- ===== src/Routing/Examples.antt =====
-- A class with strict isolation beside one without.
use wifi_offload_rpi.Prelude.{
  Bool, Bool-cases, List, Text, [], any, ap, arith, codes, false, if◌then◌else◌, inl, inr, map,
  refl, some, sym, text_eq, text_eq_self, text_eq_sound, true, ℕ, ◌%◌, ◌&&◌, ◌*◌, ◌++◌, ◌==◌, ◌^◌,
  ◌∷◌, ◌≡◌, ◌≢◌, ◌≤◌, ◌⊎◌,
}
use wifi_offload_rpi.Types.{PathClassConfig, default_rssi}
use wifi_offload_rpi.Routing.Netlink.{
  Exchange, Message, Netlink, accepted, add_op, eexist, new_rule, receive_failed, refused,
  rule_message,
}
use wifi_offload_rpi.Routing.Netlink.IpRules.{RuleLaws}
use wifi_offload_rpi.Routing.Iptables.{
  Iptc, add_iptables_mark_rules, iso_chain, netservice_chain, output_chain,
}
use wifi_offload_rpi.Routing.Iptables.Install.{
  IptcLaws, IsInstalled, add_iptables_mark_rules-IsInstalled, target_name,
}
use wifi_offload_rpi.Routing.Entry.{
  Entry, Layout, build_drop_entry, build_jump_entry, build_mark_entry, xt_align, xt_align_least,
}
use wifi_offload_rpi.Routing.DropRules.{all_ifaces, drop_rules}
use wifi_offload_rpi.Routing.DropRules.Isolation.{drop_rules-is_forbidden, is_forbidden, is_hit}
use mathlib.Core.Path.{subst}

-- The layout of a 64-bit ARM kernel.
abbrev pub arm64 : Layout
arm64 = record {
  size_bits = 64;
  align_log = 3;
  ipt_entry = 112;
  entry_match = 32;
  cgroup_info = 528;
  mark_match_info = 12;
  entry_target = 32;
  mark_target_info = 8;
  standard_target = 40;
}

xt_align_least_example :
    (12 ≤ xt_align arm64 12) × (xt_align arm64 12 % 2 ^ 3 ≡ 0) × (xt_align arm64 12 ≤ 2 * 2 ^ 3)
xt_align_least_example = xt_align_least arm64 12 2 (omega arith) (omega arith)

abbrev lte : PathClassConfig
lte = record {
  id = codes "lte";
  classid = 0x00100002;
  cgroup_path = codes "/sys/fs/cgroup/net_cls/lte";
  interfaces = codes "wwan0" ∷ [];
  mptcp_enabled = false;
  routing_table = 200;
  mark = 0x20;
  strict_isolation = true;
  rssi = default_rssi;
}

abbrev multi : PathClassConfig
multi = record lte {
  id = codes "multi";
  classid = 0x00100001;
  interfaces = codes "wlan0" ∷ codes "wlan1" ∷ [];
  routing_table = 100;
  mark = 0x10;
  strict_isolation = false;
}

abbrev classes : List PathClassConfig
classes = multi ∷ lte ∷ []

classes_rules :
    drop_rules classes ≡ (codes "wlan0", 0x20) ∷ (codes "wlan1", 0x20) ∷ (codes "wwan0", 0x10) ∷ []
unfolding drop_rules text_eq all_ifaces
classes_rules = refl

drop_rules-is_forbidden_example :
    any (is_hit (codes "wlan0") 0x20) (drop_rules classes)
    ≡ is_forbidden classes lte (codes "wlan0")
unfolding text_eq
drop_rules-is_forbidden_example =
    drop_rules-is_forbidden classes (codes "lte") (codes "wlan0") lte
      (((λ e. ground arith), tt), (tt, tt)) (((λ e. omega arith), tt), (tt, tt)) refl

-- Tables with one handle: a list of chains with their rules. The kernel keeps one table.
abbrev Chains : Type 0
Chains = List (Text × List Entry)

abbrev chain_rules : Text → Chains → List Entry
chain_rules c [] = []
chain_rules c ((name, es) ∷ rest) = if text_eq name c then es else chain_rules c rest

abbrev with_chain : Text → List Entry → Chains → Chains
with_chain c es h = (c, es) ∷ h

abbrev pub toy : Iptc
toy = record {
  Kernel = Chains;
  Handle = Chains;
  init = λ table k. some k;
  is_chain = λ c h. any (λ x. text_eq x.0 c) h;
  flush_entries = λ c h. some (with_chain c [] h);
  create_chain = λ c h. some (with_chain c [] h);
  delete_chain = λ c h. some h;
  targets = λ c h. map (λ e. target_name e.target) (chain_rules c h);
  append_entry = λ c e h. some (with_chain c (chain_rules c h ++ e ∷ []) h);
  delete_num_entry = λ c n h. some h;
  commit = λ h k. some h;
}

same_handle : {h h' : Chains} → some h ≡ some h' → h ≡ h'
same_handle e = cc

pub chain_rules-with_chain :
    (c : Text) (es : List Entry) (h h' : Chains)
    → some (with_chain c es h) ≡ some h'
    → chain_rules c h' ≡ es
chain_rules-with_chain c es h h' e =
    subst (λ x. chain_rules c x ≡ es) (same_handle e) (ground (arith, text_eq_self c))

pub chain_rules_elsewhere :
    (c c' : Text) (es : List Entry) (h h' : Chains)
    → some (with_chain c es h) ≡ some h'
    → c' ≢ c
    → chain_rules c' h' ≡ chain_rules c' h
chain_rules_elsewhere c c' es h h' e n =
    subst (λ x. chain_rules c' x ≡ chain_rules c' h) (same_handle e)
      (elim (Bool-cases (text_eq c c')) [
        | inl same ↦ absurd (n (sym (text_eq_sound c c' same)))
        | inr differ ↦ rw differ refl
      ])

abbrev pub toy_laws : IptcLaws toy
toy_laws = record {
  rules = chain_rules;
  targets_listed = λ c h. refl;
  flush_empties = λ c h h' e. chain_rules-with_chain c [] h h' e;
  create_empty = λ c h h' e. chain_rules-with_chain c [] h h' e;
  append_at_end = λ c x h h' e. chain_rules-with_chain c _ h h' e;
  append_elsewhere = λ c c' x h h' e n. chain_rules_elsewhere c c' _ h h' e n;
}

-- The table after the first installation.
abbrev marked : Chains
marked =
    let multi_rule = build_mark_entry arm64 multi.classid multi.mark in
    let lte_rule = build_mark_entry arm64 lte.classid lte.mark in
    (netservice_chain, multi_rule ∷ lte_rule ∷ [])
    ∷ (netservice_chain, multi_rule ∷ [])
    ∷ (output_chain, build_jump_entry arm64 netservice_chain ∷ [])
    ∷ (netservice_chain, [])
    ∷ []

add_iptables_mark_rules-IsInstalled_example :
    IsInstalled toy toy_laws netservice_chain
      (map (λ cls. build_mark_entry arm64 cls.classid cls.mark) classes)
      []
      marked
unfolding add_iptables_mark_rules text_eq
add_iptables_mark_rules-IsInstalled_example =
    add_iptables_mark_rules-IsInstalled toy toy_laws arm64 classes [] marked refl

abbrev isolated : Chains
isolated =
    let first = build_drop_entry arm64 (codes "wlan0") 0x20 in
    let second = build_drop_entry arm64 (codes "wlan1") 0x20 in
    let third = build_drop_entry arm64 (codes "wwan0") 0x10 in
    (iso_chain, first ∷ second ∷ third ∷ [])
    ∷ (iso_chain, first ∷ second ∷ [])
    ∷ (iso_chain, first ∷ [])
    ∷ (output_chain, build_jump_entry arm64 iso_chain ∷ [])
    ∷ (iso_chain, [])
    ∷ []

-- A kernel whose rules are a list of pairs, and which refuses a rule that it has.
abbrev has_pair : ℕ → ℕ → List (ℕ × ℕ) → Bool
has_pair mark table = any (λ r. (r.0 == mark) && (r.1 == table))

abbrev rule_answer : Message → List (ℕ × ℕ) → Exchange × List (ℕ × ℕ)
rule_answer (rule_message add_op flags mark table priority) rules =
    if has_pair mark table rules then (refused eexist, rules) else (accepted, (mark, table) ∷ rules)
rule_answer m rules = (accepted, rules)

abbrev pub rule_kernel : Netlink
rule_kernel = record { Net = List (ℕ × ℕ); exchange = rule_answer; if_nametoindex = λ name net. 0 }

-- The two ways in which the kernel answers.
rule_answer-cases :
    (mark table : ℕ) (net net' : List (ℕ × ℕ)) (answer : Exchange)
    → rule_answer (new_rule mark table) net ≡ (answer, net')
    → ((has_pair mark table net ≡ true) × (answer ≡ refused eexist) × (net' ≡ net))
      ⊎ ((answer ≡ accepted) × (net' ≡ (mark, table) ∷ net))
rule_answer-cases mark table net net' answer e = elim (Bool-cases (has_pair mark table net)) [
  | inl there ↦
      let now : (refused eexist, net) ≡ (answer, net') = rw (there, if◌then◌else◌) at e in
      inl (there, sym (ap (λ r. r.0) now), sym (ap (λ r. r.1) now))
  | inr missing ↦
      let now : (accepted, (mark, table) ∷ net) ≡ (answer, net') =
        rw (missing, if◌then◌else◌) at e in
      inr (sym (ap (λ r. r.0) now), sym (ap (λ r. r.1) now))
]

pub rule_laws : RuleLaws rule_kernel
rule_laws = record {
  has_rule = has_pair;
  added = λ mark table net net' e. elim (rule_answer-cases mark table net net' accepted e) [
    | inl (there, a, same) ↦ rw (same) there
    | inr (a, new) ↦ rw new (ground arith)
  ];
  refused_existing = λ mark table net net' e.
      elim (rule_answer-cases mark table net net' (refused eexist) e) [
        | inl (there, a, same) ↦ there
        | inr (a, new) ↦ cc
      ];
  received_existing = λ mark table net net' e.
      elim (rule_answer-cases mark table net net' (receive_failed eexist) e) [
        | inl (there, a, same) ↦ there
        | inr (a, new) ↦ cc
      ];
  rules_kept = λ mark table mark' table' net net' answer e h.
      elim (rule_answer-cases mark table net net' answer e) [
        | inl (there, a, same) ↦ rw same h
        | inr (a, new) ↦ rw new (ground arith)
      ];
}

pub rules_stay :
    (mark table : ℕ) (r : ℕ × ℕ) (net : List (ℕ × ℕ))
    → rule_laws.has_rule mark table net ≡ true
    → rule_laws.has_rule mark table (r ∷ net) ≡ true
unfolding rule_laws
rules_stay mark table r net h = ground (arith, h)
