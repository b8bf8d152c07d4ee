-- ===== src/Routing/Iptables/Removal.antt =====
-- What removeIptablesMarkRules and removeDropRules (routing/routing_policy_manager.cpp) commit, given
-- what libiptc documents of its calls.
use wifi_offload_rpi.Prelude.{
  Bool, Bool-cases, List, Option-cases, Text, [], ap, arith, erase_if, false, inl, inr, length,
  none, refl, some, suc, sym, text_eq, text_eq_self, text_eq_sound, true, zero, ℕ, ◌+◌, ◌<◌, ◌∙◌,
  ◌∷◌, ◌≡◌, ◌≢◌,
}
use wifi_offload_rpi.Routing.Iptables.{
  Iptc, delete_jump, kept, output_chain, position, uninstall, uninstall_from,
}
use wifi_offload_rpi.Routing.DropRules.{has_name}
use mathlib.Core.Path.{subst}

abbrev pub remove_at : {A : Type 0} → ℕ → List A → List A
remove_at n [] = []
remove_at zero (x ∷ xs) = xs
remove_at (suc n) (x ∷ xs) = x ∷ remove_at n xs

-- A handle is as before but for the given chain.
pub record SameElsewhere (iptc : Iptc) (c : Text) (h h' : iptc.Handle) : Type 0 where
  pub same_chains : (c' : Text) → iptc.is_chain c' h' ≡ iptc.is_chain c' h
  pub same_targets : (c' : Text) → c' ≢ c → iptc.targets c' h' ≡ iptc.targets c' h

-- Calls that libiptc does not refuse: flushing a chain, deleting an entry that is there, deleting a
-- chain that is not built in, is empty and to which no entry jumps; and a kernel that takes the
-- commit. OUTPUT is built in.
pub record RemovalLaws (iptc : Iptc) : Type 0 where
  pub is_builtin : Text → Bool
  pub output_is_builtin : is_builtin output_chain ≡ true
  pub flush_works :
      (c : Text) (h : iptc.Handle)
      → iptc.is_chain c h ≡ true
      → (h' : iptc.Handle) × (iptc.flush_entries c h ≡ some h')
        × (iptc.targets c h' ≡ [])
        × SameElsewhere iptc c h h'
  pub delete_num_works :
      (c : Text) (n : ℕ) (h : iptc.Handle)
      → n < length (iptc.targets c h)
      → (h' : iptc.Handle) × (iptc.delete_num_entry c n h ≡ some h')
        × (iptc.targets c h' ≡ remove_at n (iptc.targets c h))
        × SameElsewhere iptc c h h'
  pub delete_chain_works :
      (c : Text) (h : iptc.Handle)
      → iptc.is_chain c h ≡ true
      → is_builtin c ≡ false
      → iptc.targets c h ≡ []
      → ((c' : Text) → has_name c (iptc.targets c' h) ≡ false)
      → (h' : iptc.Handle) × (iptc.delete_chain c h ≡ some h')
        × (iptc.is_chain c h' ≡ false)
        × ((c' : Text) → c' ≢ c → iptc.targets c' h' ≡ iptc.targets c' h)
  pub commit_works :
      (h : iptc.Handle) (k : iptc.Kernel) → (k' : iptc.Kernel) × (iptc.commit h k ≡ some k')

some_inj : {A : Type 0} {a b : A} → some a ≡ some b → a ≡ b
some_inj e = cc

module _ (iptc : Iptc) (c : Text) where
  open iptc use {Handle, Kernel}

  -- The list without the first jump to the chain.
  abbrev pub without_first : List Text → List Text
  without_first = erase_if (λ t. text_eq t c)

  position-first :
      (ts : List Text) (k n : ℕ)
      → position iptc c ts k ≡ some n
      → (m : ℕ) × (n ≡ k + m) × (m < length ts) × (remove_at m ts ≡ without_first ts)
  unfolding position
  position-first [] k n e = cc
  position-first (t ∷ ts) k n e = elim (Bool-cases (text_eq t c)) [
    | inl same ↦
        (let here : some k ≡ some n = rw (position, same) at e in
          (0, omega (arith, some_inj here), omega arith, rw same refl))
    | inr differs ↦
        (let later : position iptc c ts (k + 1) ≡ some n = rw (position, differs) at e in
          let (m, at, inside, erased) = position-first ts (k + 1) n later in
          (suc m, omega (arith, at), omega (arith, inside), rw differs (ap (λ xs. t ∷ xs) erased)))
  ]

  position-none : (ts : List Text) (k : ℕ) → position iptc c ts k ≡ none → has_name c ts ≡ false
  unfolding position
  position-none [] k e = refl
  position-none (t ∷ ts) k e = elim (Bool-cases (text_eq t c)) [
    | inl same ↦ (let here = rw (position, same) at e in cc)
    | inr differs ↦ rw differs (position-none ts (k + 1) (rw (position, differs) at e))
  ]

  -- At most one jump to the chain, and from OUTPUT only.
  abbrev pub IsReferencedOnce : Handle → Type 0
  IsReferencedOnce h =
      (has_name c (without_first (iptc.targets output_chain h)) ≡ false)
      × ((c' : Text) → c' ≢ output_chain → has_name c (iptc.targets c' h) ≡ false)

  abbrev IsUnreferenced : Handle → Type 0
  IsUnreferenced h = (c' : Text) → has_name c (iptc.targets c' h) ≡ false

  -- What is committed: neither the chain nor a jump to it.
  abbrev pub IsRemoved : Kernel → Kernel → Type 0
  IsRemoved k k' =
      (h : Handle) × (iptc.commit h k ≡ some k')
      × (iptc.is_chain c h ≡ false)
      × (has_name c (iptc.targets output_chain h) ≡ false)

  module _ (laws : RemovalLaws iptc) (own : laws.is_builtin c ≡ false) where
    not_output : c ≢ output_chain
    not_output e = ground (arith, laws.output_is_builtin, own, ap laws.is_builtin e)

    from_output :
        (h : Handle)
        → has_name c (iptc.targets output_chain h) ≡ false
        → ((c' : Text) → c' ≢ output_chain → has_name c (iptc.targets c' h) ≡ false)
        → IsUnreferenced h
    from_output h o e c' = elim (Bool-cases (text_eq c' output_chain)) [
      | inl same ↦ rw (text_eq_sound c' output_chain same) o
      | inr differs ↦ e c' (λ p. ground (arith, differs, text_eq_self output_chain, p))
    ]

    delete_jump-IsUnreferenced :
        (h : Handle)
        → IsReferencedOnce h
        → IsUnreferenced (delete_jump iptc c h)
          × (iptc.is_chain c (delete_jump iptc c h) ≡ iptc.is_chain c h)
    unfolding delete_jump kept
    delete_jump-IsUnreferenced h once =
        elim (Option-cases (position iptc c (iptc.targets output_chain h) 0)) [
          | inl none_there ↦
              rw (delete_jump, none_there)
                (from_output h (position-none _ 0 none_there) once.1, refl)
          | inr (n, there) ↦
              (let (m, at, inside, erased) = position-first _ 0 n there in
                let (h', deleted, now, same) =
                  laws.delete_num_works output_chain n h (omega (arith, at, inside)) in
                let erased' =
                  now
                  ∙ ap (λ i. remove_at i (iptc.targets output_chain h)) (omega (arith, at))
                  ∙ erased in
                rw (delete_jump, there, deleted, kept)
                  (
                    from_output h' (subst (λ ts. has_name c ts ≡ false) (sym erased') once.0)
                        (λ c' away.
                          subst (λ ts. has_name c ts ≡ false) (sym (same.same_targets c' away))
                            (once.1 c' away)),
                    same.same_chains c,
                  ))
        ]

    -- A flushed chain jumps nowhere, and the others are as before.
    flushed-IsUnreferenced :
        (h h' : Handle)
        → iptc.targets c h' ≡ []
        → SameElsewhere iptc c h h'
        → IsUnreferenced h
        → IsUnreferenced h'
    flushed-IsUnreferenced h h' empty same none_there c' = elim (Bool-cases (text_eq c' c)) [
      | inl mine ↦ rw (text_eq_sound c' c mine, empty) refl
      | inr differs ↦
          subst (λ ts. has_name c ts ≡ false)
            (sym (same.same_targets c' (λ p. ground (arith, differs, text_eq_self c, p))))
            (none_there c')
    ]

    uninstall_from-IsRemoved :
        (k : Kernel) (h : Handle)
        → iptc.is_chain c h ≡ true
        → IsReferencedOnce h
        → IsRemoved k (uninstall_from iptc c h k)
    unfolding uninstall_from kept
    uninstall_from-IsRemoved k h there once =
        let (unreferenced, chains) = delete_jump-IsUnreferenced h once in
        let (h₁, flush, empty, same) = laws.flush_works c (delete_jump iptc c h) (chains ∙ there) in
        let alone = flushed-IsUnreferenced (delete_jump iptc c h) h₁ empty same unreferenced in
        let (h₂, deleted, gone, others) =
          laws.delete_chain_works c h₁ (same.same_chains c ∙ chains ∙ there) own empty alone in
        let (k', committed) = laws.commit_works h₂ k in
        rw (uninstall_from, there, flush, kept, deleted, committed)
          (
            h₂,
            committed,
            gone,
            subst (λ ts. has_name c ts ≡ false)
                (sym (others output_chain (λ p. not_output (sym p)))) (alone output_chain),
          )

    -- With a libiptc that has these laws: if it opens the table, the chain is there and is not built in, and
    -- the only entry that jumps to it is one of OUTPUT at most, then what the removal commits has neither the chain nor a jump to it in OUTPUT.
    pub uninstall-IsRemoved :
        (table : Text) (k : Kernel) (h : Handle)
        → iptc.init table k ≡ some h
        → iptc.is_chain c h ≡ true
        → IsReferencedOnce h
        → IsRemoved k (uninstall iptc table c k)
    unfolding uninstall
    uninstall-IsRemoved table k h opened there once =
        rw (uninstall, opened) (uninstall_from-IsRemoved k h there once)
