-- ===== src/Routing/Netlink/IpRules.antt =====
-- RoutingPolicyManager::addIpRules (routing/routing_policy_manager.cpp) against the kernel's rules.
use wifi_offload_rpi.Prelude.{All, Bool, List, [], ok, refl, sym, true, unexpected, ℕ, ◌∷◌, ◌≡◌}
use wifi_offload_rpi.Types.{PathClassConfig}
use wifi_offload_rpi.Routing.Netlink.{
  Exchange, Netlink, Result, accepted, add_ip_rules, add_op, bind_failed, eexist, enoent, eother,
  new_rule, outcome, receive_failed, refused, send_failed, send_netlink_fwmark_rule,
}
use mathlib.Core.Path.{subst}

-- How the kernel answers an exclusive addition of a rule: it has the rule afterwards if it accepts,
-- it had it before if it says EEXIST, and no rule is lost in any case.
pub record RuleLaws (netlink : Netlink) : Type 0 where
  -- a mark and a table
  pub has_rule : ℕ → ℕ → netlink.Net → Bool
  pub added :
      (mark table : ℕ) (net net' : netlink.Net)
      → netlink.exchange (new_rule mark table) net ≡ (accepted, net')
      → has_rule mark table net' ≡ true
  pub refused_existing :
      (mark table : ℕ) (net net' : netlink.Net)
      → netlink.exchange (new_rule mark table) net ≡ (refused eexist, net')
      → has_rule mark table net ≡ true
  pub received_existing :
      (mark table : ℕ) (net net' : netlink.Net)
      → netlink.exchange (new_rule mark table) net ≡ (receive_failed eexist, net')
      → has_rule mark table net ≡ true
  pub rules_kept :
      (mark table mark' table' : ℕ) (net net' : netlink.Net) (answer : Exchange)
      → netlink.exchange (new_rule mark table) net ≡ (answer, net')
      → has_rule mark' table' net ≡ true
      → has_rule mark' table' net' ≡ true

module _ (netlink : Netlink) (laws : RuleLaws netlink) where
  open netlink use {Net}

  abbrev pub HasRule : Net → PathClassConfig → Type 0
  HasRule net cls = laws.has_rule cls.mark cls.routing_table net ≡ true

  answered :
      (cls : PathClassConfig) (net net' : Net) (answer : Exchange)
      → netlink.exchange (new_rule cls.mark cls.routing_table) net ≡ (answer, net')
      → outcome add_op answer ≡ ok tt
      → HasRule net' cls
  unfolding outcome
  answered cls net net' accepted e o = laws.added cls.mark cls.routing_table net net' e
  answered cls net net' (refused eexist) e o =
      laws.rules_kept _ _ _ _ net net' _ e
        (laws.refused_existing cls.mark cls.routing_table net net' e)
  answered cls net net' (receive_failed eexist) e o =
      laws.rules_kept _ _ _ _ net net' _ e
        (laws.received_existing cls.mark cls.routing_table net net' e)
  answered cls net net' (refused enoent) e o = cc
  answered cls net net' (refused eother) e o = cc
  answered cls net net' (receive_failed enoent) e o = cc
  answered cls net net' (receive_failed eother) e o = cc
  answered cls net net' wifi_offload_rpi.Routing.Netlink.open_failed e o = cc
  answered cls net net' wifi_offload_rpi.Routing.Netlink.bind_failed e o = cc
  answered cls net net' wifi_offload_rpi.Routing.Netlink.send_failed e o = cc

  -- The loop after the answer to one message.
  abbrev rest_of : Result (Unit {0}) → List PathClassConfig → Net → Result (Unit {0}) × Net
  rest_of (ok u) cs net = add_ip_rules netlink cs net
  rest_of (unexpected e) cs net = (unexpected e, net)

  abbrev answer_to : PathClassConfig → Net → Exchange × Net
  answer_to c net = netlink.exchange (new_rule c.mark c.routing_table) net

  add_ip_rules-cons :
      (c : PathClassConfig) (cs : List PathClassConfig) (net : Net)
      → add_ip_rules netlink (c ∷ cs) net
        ≡ rest_of (outcome add_op (answer_to c net).0) cs (answer_to c net).1
  unfolding add_ip_rules send_netlink_fwmark_rule
  add_ip_rules-cons c cs net = go (outcome add_op (answer_to c net).0) (answer_to c net).1
    where
      go :
          (r : Result (Unit {0})) (net' : Net)
          → (elim r [ unexpected e ↦ (unexpected e, net') | ok u ↦ add_ip_rules netlink cs net' ])
            ≡ rest_of r cs net'
      go (ok u) net' = refl
      go (unexpected e) net' = refl

  -- Nothing that is there is lost on the way.
  add_ip_rules-kept :
      (classes : List PathClassConfig) (net : Net) (mark table : ℕ)
      → laws.has_rule mark table net ≡ true
      → laws.has_rule mark table (add_ip_rules netlink classes net).1 ≡ true
  unfolding add_ip_rules
  add_ip_rules-kept [] net mark table h = h
  add_ip_rules-kept (c ∷ cs) net mark table h = rw (add_ip_rules-cons c cs net) (
      go (outcome add_op (answer_to c net).0) (
        add_ip_rules-kept cs (answer_to c net).1 mark table
          (laws.rules_kept c.mark c.routing_table mark table net _ (answer_to c net).0 refl h)))
    where
      go :
          (r : Result (Unit {0}))
          → laws.has_rule mark table (add_ip_rules netlink cs (answer_to c net).1).1 ≡ true
          → laws.has_rule mark table (rest_of r cs (answer_to c net).1).1 ≡ true
      go (ok u) later = later
      go (unexpected e) later =
          laws.rules_kept c.mark c.routing_table mark table net _ (answer_to c net).0 refl h

  -- If addIpRules succeeds, then every class has its rule from its mark to its routing table, whether
  -- the rule was new or there before.
  pub add_ip_rules-All :
      (classes : List PathClassConfig) (net : Net)
      → (add_ip_rules netlink classes net).0 ≡ ok tt
      → All (HasRule (add_ip_rules netlink classes net).1) classes
  unfolding add_ip_rules
  add_ip_rules-All [] net e = tt
  add_ip_rules-All (c ∷ cs) net e =
      subst (λ r. All (HasRule r.1) (c ∷ cs)) (sym (add_ip_rules-cons c cs net))
        (go (outcome add_op (answer_to c net).0) refl (add_ip_rules-All cs (answer_to c net).1)
          (rw (add_ip_rules-cons c cs net) at e))
    where
      go :
          (r : Result (Unit {0}))
          → outcome add_op (answer_to c net).0 ≡ r
          → ((add_ip_rules netlink cs (answer_to c net).1).0 ≡ ok tt
              → All (HasRule (add_ip_rules netlink cs (answer_to c net).1).1) cs)
          → (rest_of r cs (answer_to c net).1).0 ≡ ok tt
          → All (HasRule (rest_of r cs (answer_to c net).1).1) (c ∷ cs)
      go (ok u) o later e = (
        add_ip_rules-kept cs (answer_to c net).1 c.mark c.routing_table
            (answered c net (answer_to c net).1 (answer_to c net).0 refl o),
        later e,
      )
      go (unexpected x) o later e = cc
