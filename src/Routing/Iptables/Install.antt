-- ===== src/Routing/Iptables/Install.antt =====
-- What addIptablesMarkRules and addDropRules (routing/routing_policy_manager.cpp) commit, given what
-- libiptc documents of its calls.
use wifi_offload_rpi.Prelude.{
  Bool-cases, List, Option, Text, [], any, ap, arith, codes, false, if◌then◌else◌, inl, inr, map,
  none, ok, refl, some, sym, text_eq_self, true, unexpected, ◌++◌, ◌>>=◌, ◌∙◌, ◌∷◌, ◌≡◌, ◌≢◌, ◌⊎◌,
}
use wifi_offload_rpi.Types.{PathClassConfig}
use wifi_offload_rpi.Routing.Netlink.{Result}
use wifi_offload_rpi.Routing.Entry.{
  Entry, Layout, Target, build_drop_entry, build_jump_entry, build_mark_entry, mark_target,
  named_target,
}
use wifi_offload_rpi.Routing.DropRules.{drop_rules, has_name}
use wifi_offload_rpi.Routing.Iptables.{
  Iptc, add_drop_rules, add_iptables_mark_rules, append_all, ensure_jump, filter_table, fresh_chain,
  install, iso_chain, mangle_table, netservice_chain, or_error, output_chain, rebuild,
}
use mathlib.Core.Path.{subst}
use mathlib.Core.List.{map-append, append_assoc}

-- The name that iptc_get_target gives.
abbrev pub target_name : Target → Text
target_name (mark_target mark mask) = codes "MARK"
target_name (named_target name) = name

-- Each call that succeeds does its work on its chain, and nothing else.
pub record IptcLaws (iptc : Iptc) : Type 0 where
  pub rules : Text → iptc.Handle → List Entry
  pub targets_listed :
      (c : Text) (h : iptc.Handle) → iptc.targets c h ≡ map (λ e. target_name e.target) (rules c h)
  pub flush_empties :
      (c : Text) (h h' : iptc.Handle) → iptc.flush_entries c h ≡ some h' → rules c h' ≡ []
  pub create_empty :
      (c : Text) (h h' : iptc.Handle) → iptc.create_chain c h ≡ some h' → rules c h' ≡ []
  pub append_at_end :
      (c : Text) (e : Entry) (h h' : iptc.Handle)
      → iptc.append_entry c e h ≡ some h'
      → rules c h' ≡ rules c h ++ e ∷ []
  pub append_elsewhere :
      (c c' : Text) (e : Entry) (h h' : iptc.Handle)
      → iptc.append_entry c e h ≡ some h'
      → c' ≢ c
      → rules c' h' ≡ rules c' h

>>=-inverse {ℓ κ} :
    {A : Type ℓ} {B : Type κ} (m : Result A) (f : A → Result B) (b : B)
    → (m >>= f) ≡ ok b
    → (a : A) × (m ≡ ok a) × (f a ≡ ok b)
>>=-inverse (ok a) f b e = (a, refl, e)
>>=-inverse (unexpected x) f b e = cc

abbrev success : {A : Type 0} → A → Result A
success a = ok a

ok_inj : {A : Type 0} {a b : A} → success a ≡ success b → a ≡ b
ok_inj e = cc

append_nil : {A : Type 0} (xs : List A) → xs ≡ xs ++ []
append_nil [] = refl
append_nil (x ∷ xs) = ap (λ ys. x ∷ ys) (append_nil xs)

module _ (iptc : Iptc) (laws : IptcLaws iptc) where
  open iptc use {Kernel, Handle}

  or_error_inverse {ℓ} : {A : Type ℓ} (o : Option A) (a : A) → or_error iptc o ≡ ok a → o ≡ some a
  unfolding or_error
  or_error_inverse none a e = cc
  or_error_inverse (some b) a e = cc

  fresh_chain-rules :
      (c : Text) (h h' : Handle) → fresh_chain iptc c h ≡ ok h' → laws.rules c h' ≡ []
  unfolding fresh_chain
  fresh_chain-rules c h h' e = elim (Bool-cases (iptc.is_chain c h)) [
    | inl old ↦ laws.flush_empties c h h' (or_error_inverse _ h' (rw (old, if◌then◌else◌) at e))
    | inr new ↦ laws.create_empty c h h' (or_error_inverse _ h' (rw (new, if◌then◌else◌) at e))
  ]

  abbrev HasJump : Text → Handle → Type 0
  HasJump c h = has_name c (iptc.targets output_chain h) ≡ true

  has_name-end : (c : Text) (xs : List Text) → has_name c (xs ++ c ∷ []) ≡ true
  has_name-end c [] = ground (arith, text_eq_self c)
  has_name-end c (x ∷ xs) = ground (arith, has_name-end c xs)

  ensure_jump-HasJump :
      (l : Layout) (c : Text) (h h' : Handle)
      → c ≢ output_chain
      → ensure_jump iptc l c h ≡ ok h'
      → HasJump c h' × (laws.rules c h' ≡ laws.rules c h)
  unfolding ensure_jump build_jump_entry
  ensure_jump-HasJump l c h h' n e = elim (Bool-cases (has_name c (iptc.targets output_chain h))) [
    | inl there ↦
        subst (λ x. HasJump c x × (laws.rules c x ≡ laws.rules c h))
          (ok_inj (rw (there, if◌then◌else◌) at e)) (there, refl)
    | inr missing ↦
        let appended = or_error_inverse _ h' (rw (missing, if◌then◌else◌) at e) in
        (
          rw
              (
                laws.targets_listed output_chain h',
                laws.append_at_end output_chain _ h h' appended,
                map-append,
              )
              (has_name-end c _),
          laws.append_elsewhere output_chain c _ h h' appended n,
        )
  ]

  append_all-rules :
      (c : Text) (es : List Entry) (h h' : Handle)
      → c ≢ output_chain
      → append_all iptc c es h ≡ ok h'
      → (laws.rules c h' ≡ laws.rules c h ++ es)
        × (laws.rules output_chain h' ≡ laws.rules output_chain h)
  unfolding append_all
  append_all-rules c [] h h' n e =
      subst
        (λ x.
          (laws.rules c x ≡ laws.rules c h ++ [])
          × (laws.rules output_chain x ≡ laws.rules output_chain h))
        (ok_inj e) (append_nil _, refl)
  append_all-rules c (x ∷ es) h h' n e =
      let (h₁, first, rest) = >>=-inverse _ _ h' e in
      let appended = or_error_inverse _ h₁ first in
      let (mine, output_kept) = append_all-rules c es h₁ h' n rest in
      (
        mine
            ∙ ap (λ xs. xs ++ es) (laws.append_at_end c x h h₁ appended)
            ∙ append_assoc (laws.rules c h) (x ∷ []) es,
        output_kept ∙ laws.append_elsewhere c output_chain x h h₁ appended (λ p. n (sym p)),
      )

  -- What a successful installation has committed: the chain's rules, and a jump to the chain.
  abbrev pub IsInstalled : Text → List Entry → Kernel → Kernel → Type 0
  IsInstalled c es k k' =
      (h : Handle) × (iptc.commit h k ≡ some k') × (laws.rules c h ≡ es) × HasJump c h

  rebuild-rules :
      (l : Layout) (c : Text) (es : List Entry) (h h' : Handle)
      → c ≢ output_chain
      → rebuild iptc l c es h ≡ ok h'
      → (laws.rules c h' ≡ es) × HasJump c h'
  unfolding rebuild
  rebuild-rules l c es h h' n e =
      let (h₁, first, later) = >>=-inverse _ _ h' e in
      let (h₂, second, third) = >>=-inverse _ _ h' later in
      let (jumps, emptied) = ensure_jump-HasJump l c h₁ h₂ n second in
      let (mine, output_kept) = append_all-rules c es h₂ h' n third in
      (
        mine ∙ ap (λ xs. xs ++ es) (emptied ∙ fresh_chain-rules c h h₁ first),
        rw (laws.targets_listed output_chain h', output_kept)
            (rw⁻¹ (laws.targets_listed output_chain h₂) jumps),
      )

  install-IsInstalled :
      (l : Layout) (table c : Text) (es : List Entry) (k k' : Kernel)
      → c ≢ output_chain
      → install iptc l table c es k ≡ ok k'
      → IsInstalled c es k k'
  unfolding install
  install-IsInstalled l table c es k k' n e =
      let (h, _, later) =
        >>=-inverse (or_error iptc (iptc.init table k))
          (λ x. rebuild iptc l c es x >>= λ y. or_error iptc (iptc.commit y k)) k' e in
      let (built, done, committed) =
        >>=-inverse (rebuild iptc l c es h) (λ y. or_error iptc (iptc.commit y k)) k' later in
      let (mine, jumps) = rebuild-rules l c es h built n done in
      (built, or_error_inverse _ k' committed, mine, jumps)

  -- If addIptablesMarkRules succeeds, then what it committed has exactly the classes' MARK rules in
  -- the chain NETSERVICE-MARK, in the order of the classes and whatever was there before, and OUTPUT
  -- has a jump to the chain.
  pub add_iptables_mark_rules-IsInstalled :
      (l : Layout) (classes : List PathClassConfig) (k k' : Kernel)
      → add_iptables_mark_rules iptc l classes k ≡ ok k'
      → IsInstalled netservice_chain
          (map (λ cls. build_mark_entry l cls.classid cls.mark) classes)
          k
          k'
  unfolding add_iptables_mark_rules
  add_iptables_mark_rules-IsInstalled l classes k k' e =
      install-IsInstalled l mangle_table netservice_chain _ k k' (λ p. ground arith) e

  -- If addDropRules succeeds, then either no class asks for isolation and the kernel is as before, or
  -- what it committed has exactly the DROP rules in the chain NETSERVICE-ISO, and OUTPUT has a jump
  -- to the chain.
  pub add_drop_rules-IsInstalled :
      (l : Layout) (classes : List PathClassConfig) (k k' : Kernel)
      → add_drop_rules iptc l classes k ≡ ok k'
      → ((any (λ cls. cls.strict_isolation) classes ≡ false) × (k' ≡ k))
        ⊎ IsInstalled iso_chain
            (map (λ (iface, mark). build_drop_entry l iface mark) (drop_rules classes))
            k
            k'
  unfolding add_drop_rules
  add_drop_rules-IsInstalled l classes k k' e =
      elim (Bool-cases (any (λ cls. cls.strict_isolation) classes)) [
        | inl some_strict ↦ inr (
            install-IsInstalled l filter_table iso_chain _ k k' (λ p. ground arith)
              (rw (some_strict, if◌then◌else◌) at e))
        | inr none_strict ↦ inl (none_strict, sym (ok_inj (rw (none_strict, if◌then◌else◌) at e)))
      ]
