-- ===== src/Routing/Iptables.antt =====
-- routing/routing_policy_manager.cpp, addIptablesMarkRules, addDropRules and their removal, over
-- libiptc: a handle is a private copy of a table, which iptc_commit gives back to the kernel.
pub mod Examples
pub mod Install
pub mod Removal
use wifi_offload_rpi.Prelude.{
  Bool, List, Option, Text, [], any, codes, if◌then◌else◌, map, none, not, ok, some, text_eq,
  unexpected, ℕ, ◌+◌, ◌>>=◌, ◌>>◌, ◌∷◌,
}
use wifi_offload_rpi.Types.{PathClassConfig, iptables_error}
use wifi_offload_rpi.Routing.DropRules.{drop_rules, has_name}
use wifi_offload_rpi.Routing.Netlink.{Result}
use wifi_offload_rpi.Routing.Entry.{
  Entry, Layout, build_drop_entry, build_jump_entry, build_mark_entry,
}

-- libiptc, which is not part of the repository. `none` is the failure of a call; `targets` lists
-- iptc_get_target over the rules of a chain.
pub record Iptc : Type 1 where
  pub Kernel : Type 0
  pub Handle : Type 0
  pub init : Text → Kernel → Option Handle
  pub is_chain : Text → Handle → Bool
  pub flush_entries : Text → Handle → Option Handle
  pub create_chain : Text → Handle → Option Handle
  pub delete_chain : Text → Handle → Option Handle
  pub targets : Text → Handle → List Text
  pub append_entry : Text → Entry → Handle → Option Handle
  pub delete_num_entry : Text → ℕ → Handle → Option Handle
  pub commit : Handle → Kernel → Option Kernel

abbrev pub mangle_table : Text
mangle_table = codes "mangle"

abbrev pub filter_table : Text
filter_table = codes "filter"

abbrev pub output_chain : Text
output_chain = codes "OUTPUT"

abbrev pub netservice_chain : Text
netservice_chain = codes "NETSERVICE-MARK"

abbrev pub iso_chain : Text
iso_chain = codes "NETSERVICE-ISO"

module _ (iptc : Iptc) where
  open iptc use {
    Kernel, Handle, init, is_chain, flush_entries, create_chain, delete_chain, targets,
    append_entry, delete_num_entry, commit,
  }

  or_error {ℓ} : {A : Type ℓ} → Option A → Result A
  or_error none = unexpected iptables_error
  or_error (some a) = ok a

  -- A new chain, or the old one emptied.
  fresh_chain : Text → Handle → Result Handle
  unfolding or_error
  fresh_chain chain h =
      or_error (if is_chain chain h then flush_entries chain h else create_chain chain h)

  ensure_jump : Layout → Text → Handle → Result Handle
  unfolding or_error
  ensure_jump l chain h =
      if has_name chain (targets output_chain h)
      then ok h
      else or_error (append_entry output_chain (build_jump_entry l chain) h)

  append_all : Text → List Entry → Handle → Result Handle
  unfolding or_error
  append_all chain [] h = ok h
  append_all chain (e ∷ es) h = or_error (append_entry chain e h) >>= append_all chain es

  -- The table with the chain rebuilt, as the two functions below do it before their commit.
  rebuild : Layout → Text → List Entry → Handle → Result Handle
  unfolding fresh_chain ensure_jump append_all
  rebuild l chain entries h = do
    fresh ← fresh_chain chain h
    jumped ← ensure_jump l chain fresh
    append_all chain entries jumped

  -- Nothing reaches the kernel before the commit.
  install : Layout → Text → Text → List Entry → Kernel → Result Kernel
  unfolding or_error rebuild
  install l table chain entries k = do
    h ← or_error (init table k)
    built ← rebuild l chain entries h
    or_error (commit built k)

  unfoldable pub add_iptables_mark_rules : Layout → List PathClassConfig → Kernel → Result Kernel
  unfolding install
  add_iptables_mark_rules l classes k =
      install l mangle_table netservice_chain
        (map (λ cls. build_mark_entry l cls.classid cls.mark) classes) k

  unfoldable pub add_drop_rules : Layout → List PathClassConfig → Kernel → Result Kernel
  unfolding install
  add_drop_rules l classes k =
      if not (any (λ cls. cls.strict_isolation) classes)
      then ok k
      else install l filter_table iso_chain
          (map (λ (iface, mark). build_drop_entry l iface mark) (drop_rules classes)) k

  -- A failure during cleanup is logged and leaves the handle as it was.
  kept : Handle → Option Handle → Handle
  kept h none = h
  kept h (some h') = h'

  position : Text → List Text → ℕ → Option ℕ
  position chain [] n = none
  position chain (t ∷ ts) n = if text_eq t chain then some n else position chain ts (n + 1)

  delete_jump : Text → Handle → Handle
  unfolding kept position
  delete_jump chain h = elim (position chain (targets output_chain h) 0) [
    | none ↦ h
    | some n ↦ kept h (delete_num_entry output_chain n h)
  ]

  uninstall_from : Text → Handle → Kernel → Kernel
  unfolding delete_jump
  uninstall_from chain h k =
      if not (is_chain chain h)
      then k
      else (let unjumped = delete_jump chain h in
          let flushed = kept unjumped (flush_entries chain unjumped) in
          let deleted = kept flushed (delete_chain chain flushed) in
          elim (commit deleted k) [ none ↦ k | some k' ↦ k' ])

  unfoldable pub uninstall : Text → Text → Kernel → Kernel
  unfolding uninstall_from
  uninstall table chain k = elim (init table k) [ none ↦ k | some h ↦ uninstall_from chain h k ]

  pub remove_drop_rules : Kernel → Kernel
  unfolding uninstall
  remove_drop_rules k = uninstall filter_table iso_chain k

  pub remove_iptables_mark_rules : Kernel → Kernel
  unfolding uninstall
  remove_iptables_mark_rules k = uninstall mangle_table netservice_chain k
