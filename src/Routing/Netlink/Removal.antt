-- ===== src/Routing/Netlink/Removal.antt =====
-- RoutingPolicyManager::removeIpRules (routing/routing_policy_manager.cpp) against the kernel's rules.
use wifi_offload_rpi.Prelude.{All, Bool, List, [], false, inl, inr, ℕ, ◌∷◌, ◌≡◌, ◌⊎◌}
use wifi_offload_rpi.Types.{PathClassConfig}
use wifi_offload_rpi.Routing.Netlink.{
  Message, Netlink, accepted, delete_op, enoent, ip_rule_priority, refused, remove_ip_rules,
  rule_message, send_netlink_fwmark_rule,
}

abbrev pub old_rule : ℕ → ℕ → Message
old_rule mark table = rule_message delete_op [] mark table ip_rule_priority

-- A kernel that answers: it has a rule at most once, and deletes it or says ENOENT; no deletion
-- brings a rule back.
pub record RemovalLaws (netlink : Netlink) : Type 0 where
  -- a mark and a table
  pub has_rule : ℕ → ℕ → netlink.Net → Bool
  pub answered :
      (mark table : ℕ) (net : netlink.Net)
      → ((netlink.exchange (old_rule mark table) net).0 ≡ accepted)
        ⊎ ((netlink.exchange (old_rule mark table) net).0 ≡ refused enoent)
  pub deleted :
      (mark table : ℕ) (net : netlink.Net)
      → (netlink.exchange (old_rule mark table) net).0 ≡ accepted
      → has_rule mark table (netlink.exchange (old_rule mark table) net).1 ≡ false
  pub missing :
      (mark table : ℕ) (net : netlink.Net)
      → (netlink.exchange (old_rule mark table) net).0 ≡ refused enoent
      → has_rule mark table (netlink.exchange (old_rule mark table) net).1 ≡ false
  pub stays_gone :
      (mark table mark' table' : ℕ) (net : netlink.Net)
      → has_rule mark table net ≡ false
      → has_rule mark table (netlink.exchange (old_rule mark' table') net).1 ≡ false

-- What no deletion of a rule breaks, removeIpRules keeps.
pub remove_ip_rules-preserves :
    (netlink : Netlink) (P : netlink.Net → Type 0)
    → ((mark table : ℕ) (net : netlink.Net)
        → P net
        → P (netlink.exchange (old_rule mark table) net).1)
    → (classes : List PathClassConfig) (net : netlink.Net) → P net
    → P (remove_ip_rules netlink classes net)
unfolding remove_ip_rules send_netlink_fwmark_rule
remove_ip_rules-preserves netlink P keeps [] net h = h
remove_ip_rules-preserves netlink P keeps (c ∷ cs) net h =
    remove_ip_rules-preserves netlink P keeps cs _ (keeps c.mark c.routing_table net h)

module _ (netlink : Netlink) (laws : RemovalLaws netlink) where
  open netlink use {Net}

  abbrev pub HasNoRule : Net → PathClassConfig → Type 0
  HasNoRule net cls = laws.has_rule cls.mark cls.routing_table net ≡ false

  -- The rules of all classes are gone after removeIpRules.
  pub remove_ip_rules-HasNoRule :
      (classes : List PathClassConfig) (net : Net)
      → All (HasNoRule (remove_ip_rules netlink classes net)) classes
  unfolding remove_ip_rules send_netlink_fwmark_rule
  remove_ip_rules-HasNoRule [] net = tt
  remove_ip_rules-HasNoRule (c ∷ cs) net = (
    remove_ip_rules-preserves netlink (λ net. laws.has_rule c.mark c.routing_table net ≡ false)
        (λ mark table net. laws.stays_gone c.mark c.routing_table mark table net) cs _
        (elim (laws.answered c.mark c.routing_table net) [
          | inl e ↦ laws.deleted c.mark c.routing_table net e
          | inr e ↦ laws.missing c.mark c.routing_table net e
        ]),
    remove_ip_rules-HasNoRule cs _,
  )
