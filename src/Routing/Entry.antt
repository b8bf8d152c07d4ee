-- ===== src/Routing/Entry.antt =====
-- routing/routing_policy_manager.cpp, buildMarkEntry, buildJumpEntry and buildDropEntry: the rule
-- entries, with the offsets of their parts. `Layout` gives the sizes of the kernel's structs.
use wifi_offload_rpi.Prelude.{
  Text, [], arith, codes, take, ℕ, ◌%◌, ◌*◌, ◌+◌, ◌-◌, ◌/◌, ◌<◌, ◌^◌, ◌≡◌, ◌≤◌,
}
use native.Mathlib.Nat.{
  div-add-mod, mod-eq_of_lt, mod-lt, mul-mod_right, mul-le-mul_left, mul_comm, div-lt_iff_lt-mul,
  one-le-pow,
}

pub record Layout : Type 0 where
  pub size_bits : ℕ  -- of size_t
  pub align_log : ℕ  -- alignof(_xt_align) is 2 to this power
  pub ipt_entry : ℕ
  pub entry_match : ℕ
  pub cgroup_info : ℕ
  pub mark_match_info : ℕ
  pub entry_target : ℕ
  pub mark_target_info : ℕ
  pub standard_target : ℕ

-- Rounded up to the alignment, in size_t: the mask clears the low bits.
unfoldable pub xt_align : Layout → ℕ → ℕ
xt_align l n =
    let raised = (n + 2 ^ l.align_log - 1) % 2 ^ l.size_bits in raised - raised % 2 ^ l.align_log

pub data Match : Type 0 where
  no_match : Match
  cgroup_match : ℕ → Match  -- revision 2, by classid, not inverted
  mark_match : ℕ → ℕ → Match  -- revision 1: mark and mask, not inverted

pub data Target : Type 0 where
  mark_target : ℕ → ℕ → Target  -- revision 2: mark and mask
  named_target : Text → Target  -- a chain, or "DROP"

-- `out_iface` is empty, or the bytes that outiface_mask covers, the final NUL left out.
pub record Entry : Type 0 where
  pub out_iface : Text
  pub condition : Match
  pub target : Target
  pub match_size : ℕ  -- 0 without a match
  pub target_size : ℕ
  pub target_offset : ℕ
  pub next_offset : ℕ

abbrev pub full_mask : ℕ
full_mask = 0xFFFFFFFF

abbrev u16 : ℕ → ℕ
u16 n = n % 2 ^ 16

module _ (l : Layout) where
  unfoldable pub build_mark_entry : ℕ → ℕ → Entry
  build_mark_entry classid mark =
      let match_size = xt_align l (l.entry_match + l.cgroup_info) in
      let target_size = xt_align l (l.entry_target + l.mark_target_info) in
      let header_size = xt_align l l.ipt_entry in
      record {
        out_iface = [];
        condition = cgroup_match classid;
        target = mark_target mark full_mask;
        match_size = u16 match_size;
        target_size = u16 target_size;
        target_offset = u16 (header_size + match_size);
        next_offset = u16 (header_size + match_size + target_size);
      }

  unfoldable pub build_jump_entry : Text → Entry
  build_jump_entry to_chain =
      let target_size = xt_align l l.standard_target in
      let header_size = xt_align l l.ipt_entry in
      record {
        out_iface = [];
        condition = no_match;
        target = named_target to_chain;
        match_size = 0;
        target_size = u16 target_size;
        target_offset = u16 header_size;
        next_offset = u16 (header_size + target_size);
      }

  -- Names are cut to IFNAMSIZ - 1 bytes.
  unfoldable pub build_drop_entry : Text → ℕ → Entry
  build_drop_entry out_iface mark =
      let match_size = xt_align l (l.entry_match + l.mark_match_info) in
      let target_size = xt_align l l.standard_target in
      let header_size = xt_align l l.ipt_entry in
      record {
        out_iface = take 15 out_iface;
        condition = mark_match mark full_mask;
        target = named_target (codes "DROP");
        match_size = u16 match_size;
        target_size = u16 target_size;
        target_offset = u16 (header_size + match_size);
        next_offset = u16 (header_size + match_size + target_size);
      }

raised-multiple : (d n : ℕ) → 0 < d → n + d - 1 - (n + d - 1) % d ≡ d * ((n + d - 1) / d)
raised-multiple d n h = omega (arith, div-add-mod (n + d - 1) d)

aligned :
    (d n m : ℕ)
    → 0 < d
    → (n ≤ d * ((n + d - 1) / d))
      × (d * ((n + d - 1) / d) % d ≡ 0)
      × (n ≤ m * d → d * ((n + d - 1) / d) ≤ m * d)
aligned d n m h = (
  omega (arith, div-add-mod (n + d - 1) d, mod-lt (n + d - 1) h),
  mul-mod_right d _,
  λ below.
      let q_small : (n + d - 1) / d < m + 1 =
        (div-lt_iff_lt-mul h).1 (omega (arith, below, div-add-mod n d)) in
      rw (mul_comm m d) (mul-le-mul_left d (omega (arith, q_small))),
)

-- For a size whose sum with the alignment less 1 fits size_t, and any multiple of the alignment that
-- is not below the size, xtAlign gives a multiple of the alignment between the two: it is the least
-- one.
pub xt_align_least :
    (l : Layout) (n m : ℕ)
    → n + 2 ^ l.align_log - 1 < 2 ^ l.size_bits
    → n ≤ m * 2 ^ l.align_log
    → (n ≤ xt_align l n)
      × (xt_align l n % 2 ^ l.align_log ≡ 0)
      × (xt_align l n ≤ m * 2 ^ l.align_log)
unfolding xt_align
xt_align_least l n m fits below =
    let d_pos : 0 < 2 ^ l.align_log = one-le-pow _ _ (omega arith) in
    let (above, multiple, least) = aligned (2 ^ l.align_log) n m d_pos in
    rw (mod-eq_of_lt fits, raised-multiple (2 ^ l.align_log) n d_pos) (above, multiple, least below)
