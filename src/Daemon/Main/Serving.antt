-- ===== src/Daemon/Main/Serving.antt =====
-- What is in place when the daemon (main.cpp) serves its consumers.
use wifi_offload_rpi.Prelude.{
  All, Expected, List, Option, Text, [], any, ap, false, map, ok, refl, true, unexpected, ℕ, ◌∙◌,
  ◌∷◌, ◌≡◌, ◌⊎◌,
}
use wifi_offload_rpi.Types.{ConfigError, PathClassConfig}
use wifi_offload_rpi.Routing.Cgroups.NetCls.{ClassidLaws}
use wifi_offload_rpi.Routing.Cgroups.{create_cgroup_hierarchy}
use wifi_offload_rpi.Config.{load_from_file}
use wifi_offload_rpi.Daemon.Main.{
  Course, Machine, Outcome, Platform, cgroups_phase, configured, drop_phase, endpoints_phase,
  exit_success, failure, main, marks_phase, or_cleanup, parse_args, rules_phase, serve_phase,
}
use wifi_offload_rpi.Config.Schema.{IsLoaded, IsWellFormed, load_from_file-IsLoaded}
use wifi_offload_rpi.Mptcp.{add_endpoints}
use wifi_offload_rpi.Mptcp.Endpoints.{EndpointLaws, IsServed, add_endpoints-All}
use wifi_offload_rpi.Routing.Entry.{build_drop_entry, build_mark_entry}
use wifi_offload_rpi.Routing.DropRules.{drop_rules}
use wifi_offload_rpi.Routing.Netlink.{Result, add_ip_rules}
use wifi_offload_rpi.Routing.Netlink.IpRules.{HasRule, RuleLaws, add_ip_rules-All}
use wifi_offload_rpi.Routing.Iptables.{iso_chain, netservice_chain}
use wifi_offload_rpi.Routing.Iptables.Install.{
  IptcLaws, IsInstalled, add_drop_rules-IsInstalled, add_iptables_mark_rules-IsInstalled,
}
use wifi_offload_rpi.Routing.Cgroups.SetUp.{HasClassid, IsClassid}
use wifi_offload_rpi.Routing.Cgroups.Classids.{IsPlaced, create_cgroup_hierarchy-All}
use wifi_offload_rpi.Mptcp.Preserved.{IsUntouched, add_endpoints-preserves}

-- The laws of what the daemon works on.
pub record PlatformLaws (platform : Platform) : Type 1 where
  pub iptc_laws : IptcLaws platform.iptc
  pub rule_laws : RuleLaws platform.netlink
  pub endpoint_laws : EndpointLaws platform.genl
  pub classid_laws : ClassidLaws platform.files
  -- A message about endpoints leaves the ip rules alone.
  pub rules_untouched :
      (mark table : ℕ)
      → IsUntouched platform.netlink platform.genl (λ net. rule_laws.has_rule mark table net ≡ true)

module _ (platform : Platform) (laws : PlatformLaws platform) where
  open platform use {netlink, genl, iptc, files, json, word_bits, layout}
  open laws use {iptc_laws, rule_laws, endpoint_laws, classid_laws, rules_untouched}

  module _ (socket_path : Text) (course : Course platform) where
    -- The outcome is that of a daemon that serves from the machine `now`, with the policy of the
    -- classes in it, as the stages of the start have put it there one by one. The classes are those
    -- that the configuration file gives, `text` if it can be read; `before` is the state of the
    -- tables at the start.
    pub record IsReady (text : Option Text) (before : iptc.Kernel) (outcome : Outcome platform)
        : Type 0 where
      pub classes : List PathClassConfig
      pub parsed : load_from_file json word_bits text ≡ ok classes
      pub now : Machine platform
      pub serving : outcome ≡ serve_phase platform socket_path course classes now
      pub loaded : IsLoaded classes
      pub numbered : All (HasClassid files classid_laws now.disk) classes
      pub marked : iptc.Kernel
      pub marks :
          IsInstalled iptc iptc_laws netservice_chain
            (map (λ cls. build_mark_entry layout cls.classid cls.mark) classes)
            before
            marked
      pub isolation :
          ((any (λ cls. cls.strict_isolation) classes ≡ false) × (now.tables ≡ marked))
          ⊎ IsInstalled iptc iptc_laws iso_chain
              (map (λ (iface, mark). build_drop_entry layout iface mark) (drop_rules classes))
              marked
              now.tables
      pub rules : All (HasRule netlink rule_laws now.net) classes
      pub endpoints : All (IsServed netlink genl endpoint_laws now.net) classes

    IsSuccess : Outcome platform → Type 0
    IsSuccess o = o.ending ≡ exit_success

    or_cleanup-IsSuccess :
        {A : Type 0} (classes : List PathClassConfig) (m : Machine platform) (r : Result A)
        (next : A → Outcome platform)
        → IsSuccess (or_cleanup platform classes m r next)
        → (a : A) × (r ≡ ok a)
          × (or_cleanup platform classes m r next ≡ next a)
          × IsSuccess (next a)
    unfolding or_cleanup failure IsSuccess
    or_cleanup-IsSuccess classes m (ok a) next e = (a, refl, refl, e)
    or_cleanup-IsSuccess classes m (unexpected x) next e = cc

    -- The endpoints are added after the rules.
    All-preserved :
        (all : List PathClassConfig) (net : netlink.Net) (classes : List PathClassConfig)
        → All (HasRule netlink rule_laws net) classes
        → All (HasRule netlink rule_laws (add_endpoints netlink genl all net).1) classes
    All-preserved all net [] h = tt
    All-preserved all net (c ∷ cs) h = (
      add_endpoints-preserves netlink genl (λ n. rule_laws.has_rule c.mark c.routing_table n ≡ true)
          (rules_untouched c.mark c.routing_table) all net h.0,
      All-preserved all net cs h.1,
    )

    marks_phase-IsReady :
        (text : Option Text) (classes : List PathClassConfig) (m : Machine platform)
        → load_from_file json word_bits text ≡ ok classes
        → All (HasClassid files classid_laws m.disk) classes
        → IsSuccess (marks_phase platform socket_path course classes m)
        → IsReady text m.tables (marks_phase platform socket_path course classes m)
    unfolding marks_phase rules_phase drop_phase endpoints_phase
    marks_phase-IsReady text classes m parsed numbered e =
        let (marked, marks, s₁, e₁) = or_cleanup-IsSuccess classes m _ _ e in
        let ruled = (add_ip_rules netlink classes m.net).1 in
        let (_, rules, s₂, e₂) =
          or_cleanup-IsSuccess classes _ (add_ip_rules netlink classes m.net).0 _ e₁ in
        let (isolated, isolation, s₃, e₃) = or_cleanup-IsSuccess classes _ _ _ e₂ in
        let served = (add_endpoints netlink genl classes ruled).1 in
        let (_, endpoints, s₄, e₄) =
          or_cleanup-IsSuccess classes _ (add_endpoints netlink genl classes ruled).0 _ e₃ in
        let all_added : add_endpoints netlink genl classes ruled ≡ (ok tt, served) =
          ap (λ r. (r, served)) endpoints in
        record {
          classes = classes;
          now = record { net = served; tables = isolated; disk = m.disk };
          serving = s₁ ∙ s₂ ∙ s₃ ∙ s₄;
          parsed = parsed;
          loaded = load_from_file-IsLoaded json word_bits text classes parsed;
          numbered = numbered;
          marked = marked;
          marks =
              add_iptables_mark_rules-IsInstalled iptc iptc_laws layout classes m.tables marked
                marks;
          isolation =
              add_drop_rules-IsInstalled iptc iptc_laws layout classes marked isolated isolation;
          rules =
              All-preserved classes ruled classes
                (add_ip_rules-All netlink rule_laws classes m.net rules);
          endpoints = add_endpoints-All netlink genl endpoint_laws classes ruled served all_added;
        }

    -- The numbers of a configuration that was loaded are in range.
    loaded-IsClassid :
        (classes : List PathClassConfig)
        → All IsWellFormed classes
        → All (IsClassid files classid_laws) classes
    loaded-IsClassid [] h = tt
    loaded-IsClassid (c ∷ cs) h = (h.0.classid_word, loaded-IsClassid cs h.1)

    cgroups_phase-IsReady :
        (text : Option Text) (classes : List PathClassConfig) (m : Machine platform)
        → load_from_file json word_bits text ≡ ok classes
        → IsPlaced files classid_laws (create_cgroup_hierarchy files classes m.disk).1 classes
        → IsSuccess (
            cgroups_phase platform socket_path course classes
              (create_cgroup_hierarchy files classes m.disk)
              m)
        → IsReady text m.tables (
            cgroups_phase platform socket_path course classes
              (create_cgroup_hierarchy files classes m.disk)
              m)
    unfolding cgroups_phase failure IsSuccess
    cgroups_phase-IsReady text classes m parsed =
        go (create_cgroup_hierarchy files classes m.disk) refl
      where
        go :
            (r : Result (Unit {0}) × files.Disk)
            → create_cgroup_hierarchy files classes m.disk ≡ r
            → IsPlaced files classid_laws r.1 classes
            → IsSuccess (cgroups_phase platform socket_path course classes r m)
            → IsReady text m.tables (cgroups_phase platform socket_path course classes r m)
        go (unexpected x, disk) c apart e = cc
        go (ok u, disk) c apart e =
            marks_phase-IsReady text classes (record m { disk = disk }) parsed
              (create_cgroup_hierarchy-All files classid_laws classes m.disk disk c
                (loaded-IsClassid classes
                  (load_from_file-IsLoaded json word_bits text classes parsed).well_formed)
                apart)
              e

    -- On a platform with these laws (of which one is that the kernel takes the numbers written to its
    -- classid files), and if the cgroups of the loaded classes are different cgroups of net_cls: if
    -- main ends with success, then it has served, and when it began to, the policy of the classes that
    -- the configuration file gives was in place: the cgroup of every class had the class's number, or one that the kernel shows in decimal
    -- digits that read as it in hexadecimal; the MARK rules and, with isolation, the DROP rules were
    -- committed; every class had its ip rule; and for every interface of a class with MPTCP there was
    -- an endpoint with the first IPv4 address of the interface, if it has one other than 0.0.0.0.
    pub main-IsReady :
        (argv : List Text) (read : Text → Option Text) (m : Machine platform)
        → ((classes : List PathClassConfig)
            → load_from_file json word_bits (read (parse_args argv)) ≡ ok classes
            → IsPlaced files classid_laws (create_cgroup_hierarchy files classes m.disk).1 classes)
        → (main platform argv read socket_path course m).ending ≡ exit_success
        → IsReady (read (parse_args argv)) m.tables (main platform argv read socket_path course m)
    unfolding main configured failure IsSuccess
    main-IsReady argv read m apart =
        go (load_from_file json word_bits (read (parse_args argv))) refl
      where
        go :
            (r : Expected ConfigError (List PathClassConfig))
            → load_from_file json word_bits (read (parse_args argv)) ≡ r
            → (configured platform socket_path course r m).ending ≡ exit_success
            → IsReady (read (parse_args argv)) m.tables (configured platform socket_path course r m)
        go (unexpected x) l e = cc
        go (ok classes) l e = cgroups_phase-IsReady _ classes m l (apart classes l) e
