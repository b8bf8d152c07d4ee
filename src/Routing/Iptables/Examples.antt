-- ===== src/Routing/Iptables/Examples.antt =====
-- Tables as functions from a chain's name, with the mark chain installed.
use wifi_offload_rpi.Prelude.{
  Bool, Bool-cases, List, Text, [], codes, false, if◌then◌else◌, inl, inr, refl, some, text_eq,
  text_eq_self, text_eq_sound, true, ◌++◌, ◌||◌, ◌∷◌, ◌≡◌, ◌≢◌,
}
use wifi_offload_rpi.Routing.DropRules.{has_name}
use wifi_offload_rpi.Routing.Iptables.{
  Iptc, mangle_table, netservice_chain, output_chain, uninstall,
}
use wifi_offload_rpi.Routing.Iptables.Install.{target_name}
use wifi_offload_rpi.Routing.Iptables.Removal.{
  IsRemoved, RemovalLaws, SameElsewhere, remove_at, uninstall-IsRemoved,
}

abbrev put : {A : Type 0} → Text → A → (Text → A) → Text → A
put c a f c' = if text_eq c' c then a else f c'

-- Which chains there are, and the targets of each.
abbrev Table : Type 0
Table = (Text → Bool) × (Text → List Text)

abbrev pub tables : Iptc
tables = record {
  Kernel = Table;
  Handle = Table;
  init = λ table k. some k;
  is_chain = λ c h. h.0 c;
  flush_entries = λ c h. some (h.0, put c [] h.1);
  create_chain = λ c h. some (put c true h.0, h.1);
  delete_chain = λ c h. some (put c false h.0, h.1);
  targets = λ c h. h.1 c;
  append_entry = λ c e h. some (h.0, put c (h.1 c ++ target_name e.target ∷ []) h.1);
  delete_num_entry = λ c n h. some (h.0, put c (remove_at n (h.1 c)) h.1);
  commit = λ h k. some h;
}

put_self : {A : Type 0} (c : Text) (a : A) (f : Text → A) → put c a f c ≡ a
put_self c a f = rw (text_eq_self c) refl

put-elsewhere : {A : Type 0} (c c' : Text) (a : A) (f : Text → A) → c' ≢ c → put c a f c' ≡ f c'
put-elsewhere c c' a f n = elim (Bool-cases (text_eq c' c)) [
  | inl same ↦ elim (n (text_eq_sound c' c same)) [ ]
  | inr differs ↦ rw differs refl
]

put-SameElsewhere :
    (c : Text) (ts : List Text) (h : Table) → SameElsewhere tables c h (h.0, put c ts h.1)
put-SameElsewhere c ts h = record {
  same_chains = λ c'. refl;
  same_targets = λ c' n. put-elsewhere c c' ts h.1 n;
}

tables_laws : RemovalLaws tables
tables_laws = record {
  is_builtin = λ c. text_eq c output_chain;
  output_is_builtin = text_eq_self output_chain;
  flush_works = λ c h there. (_, refl, put_self c [] h.1, put-SameElsewhere c [] h);
  delete_num_works = λ c n h inside. (_, refl, put_self c _ h.1, put-SameElsewhere c _ h);
  delete_chain_works = λ c h there own empty alone. (_, refl, put_self c false h.0, λ c' n. refl);
  commit_works = λ h k. (h, refl);
}

abbrev pub installed : Table
installed = (
  λ c. text_eq c netservice_chain || text_eq c output_chain,
  λ c.
      if text_eq c output_chain
      then codes "ACCEPT" ∷ netservice_chain ∷ codes "DROP" ∷ []
      else if text_eq c netservice_chain
      then codes "MARK" ∷ []
      else [],
)

-- No other chain jumps to the mark chain.
installed_elsewhere :
    (c : Text) → c ≢ output_chain → has_name netservice_chain (tables.targets c installed) ≡ false
unfolding text_eq
installed_elsewhere c n = elim (Bool-cases (text_eq c netservice_chain)) [
  | inl mine ↦ rw (put_away c n, mine) refl
  | inr differs ↦ rw (put_away c n, differs) refl
]
  where
    put_away : (c : Text) → c ≢ output_chain → text_eq c output_chain ≡ false
    put_away c n = elim (Bool-cases (text_eq c output_chain)) [
      | inl same ↦ elim (n (text_eq_sound c output_chain same)) [ ]
      | inr differs ↦ differs
    ]

uninstall-IsRemoved_example :
    IsRemoved tables netservice_chain installed
      (uninstall tables mangle_table netservice_chain installed)
unfolding text_eq tables_laws
uninstall-IsRemoved_example =
    uninstall-IsRemoved tables netservice_chain tables_laws refl mangle_table installed installed
      refl refl (refl, installed_elsewhere)
