-- ===== src/Config/Schema.antt =====
-- What a class that ConfigLoader::loadFromFile returns satisfies (config/config_loader.cpp).
use wifi_offload_rpi.Prelude.{
  All, Bool-cases, List, Option, Option-cases, Text, [], ap, arith, codes, false, if◌then◌else◌,
  inl, inr, is_empty, length, map, none, not, ok, refl, some, suc, unexpected, ℕ, ◌<ℤ◌, ◌<◌, ◌>>=◌,
  ◌^◌, ◌||◌, ◌∷◌, ◌≡◌, ◌≤◌,
}
use wifi_offload_rpi.Types.{PathClassConfig}
use wifi_offload_rpi.Config.Ensures.{
  Ensures, Ensures->>=, Ensures-any, Ensures-mono, Ensures-ok, same_emptiness,
}
use wifi_offload_rpi.Config.{
  Json, Result, bool_field, interfaces_field, load_from_file, load_root, nonzero, parse_classes,
  parse_hex_field, parse_interfaces, parse_path_class, routing_table_field, rssi_field,
  strict_isolation_field, string_field, validate_classes,
}
use wifi_offload_rpi.Config.Unique.{IsApart, validate_classes_iff_IsApart}

abbrev pub IsFilled : Text → Type 0
IsFilled t = is_empty t ≡ false

abbrev IsSmall : ℕ → Type 0
IsSmall n = n < 2 ^ 32

abbrev pub IsWord : ℕ → Type 0
IsWord n = (0 < n) × (n < 2 ^ 32)

pub record IsWellFormed (c : PathClassConfig) : Type 0 where
  pub named : IsFilled c.id
  pub classid_word : IsWord c.classid
  pub located : IsFilled c.cgroup_path
  pub attached : is_empty c.interfaces ≡ false
  pub interfaces_named : All IsFilled c.interfaces
  pub table_range : (1 ≤ c.routing_table) × (c.routing_table ≤ 65534)
  pub mark_word : IsWord c.mark
  pub warn_above_drop : c.rssi.drop <ℤ c.rssi.warn

module _ (json : Json) (word_bits : ℕ) where
  open json use {Value}

  string_field-IsFilled :
      (j : Value) (key : Text) → Ensures IsFilled (string_field json word_bits j key)
  unfolding string_field
  string_field-IsFilled j key = ground arith

  parse_hex_field-bound :
      (j : Value) (key : Text) → Ensures IsSmall (parse_hex_field json word_bits j key)
  unfolding parse_hex_field
  parse_hex_field-bound j key = ground arith

  nonzero-IsWord : (n : ℕ) → n < 2 ^ 32 → Ensures IsWord (nonzero json word_bits n)
  unfolding nonzero
  nonzero-IsWord n h = ground arith

  parse_interfaces-All :
      (vs : List Value)
      → Ensures
          (λ ts. (length ts ≡ length vs) × All IsFilled ts)
          (parse_interfaces json word_bits vs)
  unfolding parse_interfaces
  parse_interfaces-All [] = (refl, tt)
  parse_interfaces-All (v ∷ vs) =
      elim (Bool-cases (not (json.is_string v) || is_empty (json.get_string v))) [
        | inl bad ↦ rw (bad, if◌then◌else◌) tt
        | inr good ↦
            rw (good, if◌then◌else◌)
              (Ensures->>= _ _ (parse_interfaces json word_bits vs)
                (λ names. ok (json.get_string v ∷ names)) (parse_interfaces-All vs)
                (λ ts h. (ap suc h.0, (ground arith, h.1))))
      ]

  routing_table_field-range :
      (j : Value) → Ensures (λ n. (1 ≤ n) × (n ≤ 65534)) (routing_table_field json word_bits j)
  unfolding routing_table_field
  routing_table_field-range j = ground arith

  rssi_field-ordered : (j : Value) → Ensures (λ r. r.drop <ℤ r.warn) (rssi_field json word_bits j)
  unfolding rssi_field
  rssi_field-ordered j = ground arith

  interfaces_field-named :
      (j : Value)
      → Ensures (λ ts. (is_empty ts ≡ false) × All IsFilled ts) (interfaces_field json word_bits j)
  unfolding interfaces_field
  interfaces_field-named j =
      elim (Bool-cases (
        not (json.contains j (codes "interfaces"))
        || not (json.is_array (json.at j (codes "interfaces"))))) [
          | inl missing ↦ rw (missing, if◌then◌else◌) tt
          | inr there ↦
              elim (Bool-cases (is_empty (json.elements (json.at j (codes "interfaces"))))) [
                | inl none_there ↦ rw (there, none_there, if◌then◌else◌) tt
                | inr some_there ↦
                    rw (there, some_there, if◌then◌else◌)
                      (Ensures-mono _ _
                        (parse_interfaces json word_bits
                          (json.elements (json.at j (codes "interfaces"))))
                        (λ ts h. (same_emptiness ts _ h.0 some_there, h.1))
                        (parse_interfaces-All _))
              ]
        ]

  parse_path_class-IsWellFormed :
      (j : Value) → Ensures IsWellFormed (parse_path_class json word_bits j)
  unfolding parse_path_class
  parse_path_class-IsWellFormed j =
      Ensures->>= IsFilled IsWellFormed (string_field json word_bits j (codes "id")) _
        (string_field-IsFilled j (codes "id"))
        λ id named.
          Ensures->>= IsSmall IsWellFormed (parse_hex_field json word_bits j (codes "classid")) _
            (parse_hex_field-bound j (codes "classid"))
            λ n n_small.
              Ensures->>= IsWord IsWellFormed (nonzero json word_bits n) _
                (nonzero-IsWord n n_small)
                λ classid classid_word.
                  Ensures->>= IsFilled IsWellFormed
                    (string_field json word_bits j (codes "cgroup_path")) _
                    (string_field-IsFilled j (codes "cgroup_path"))
                    λ path located.
                      Ensures->>= _ IsWellFormed (interfaces_field json word_bits j) _
                        (interfaces_field-named j)
                        λ interfaces listed.
                          Ensures->>= (λ b. Unit {0}) IsWellFormed
                            (bool_field json word_bits j (codes "mptcp_enabled")) _ (Ensures-any _)
                            λ mptcp _.
                              Ensures->>= _ IsWellFormed (routing_table_field json word_bits j) _
                                (routing_table_field-range j)
                                λ table table_range.
                                  Ensures->>= IsSmall IsWellFormed
                                    (parse_hex_field json word_bits j (codes "mark")) _
                                    (parse_hex_field-bound j (codes "mark"))
                                    λ m m_small.
                                      Ensures->>= IsWord IsWellFormed (nonzero json word_bits m) _
                                        (nonzero-IsWord m m_small)
                                        λ mark mark_word.
                                          Ensures->>= (λ b. Unit {0}) IsWellFormed
                                            (strict_isolation_field json word_bits j) _
                                            (Ensures-any _)
                                            λ strict _.
                                              Ensures->>= _ IsWellFormed
                                                (rssi_field json word_bits j) _
                                                (rssi_field-ordered j)
                                                λ rssi ordered. record {
                                                  named = named;
                                                  classid_word = classid_word;
                                                  located = located;
                                                  attached = listed.0;
                                                  interfaces_named = listed.1;
                                                  table_range = table_range;
                                                  mark_word = mark_word;
                                                  warn_above_drop = ordered;
                                                }

  parse_classes-All :
      (vs : List Value)
      → Ensures
          (λ cs. (length cs ≡ length vs) × All IsWellFormed cs)
          (parse_classes json word_bits vs)
  unfolding parse_classes
  parse_classes-All [] = (refl, tt)
  parse_classes-All (v ∷ vs) =
      Ensures->>= IsWellFormed _ (parse_path_class json word_bits v) _
        (parse_path_class-IsWellFormed v)
        λ c well.
          Ensures->>= _ _ (parse_classes json word_bits vs) (λ cfgs. ok (c ∷ cfgs))
            (parse_classes-All vs) λ cs rest. (ap suc rest.0, (well, rest.1))

-- What the rest of the daemon relies on.
pub record IsLoaded (cs : List PathClassConfig) : Type 0 where
  pub any_class : is_empty cs ≡ false
  pub well_formed : All IsWellFormed cs
  pub ids_apart : IsApart (map (λ c. c.id) cs)
  pub classids_apart : IsApart (map (λ c. c.classid) cs)
  pub marks_apart : IsApart (map (λ c. c.mark) cs)
  pub tables_apart : IsApart (map (λ c. c.routing_table) cs)

validated-IsLoaded :
    (cs : List PathClassConfig)
    → (is_empty cs ≡ false) × All IsWellFormed cs
    → Ensures IsLoaded (validate_classes cs >>= λ u. ok cs)
validated-IsLoaded cs h = settled (validate_classes cs) refl
  where
    settled :
        (r : Result (Unit {0})) → validate_classes cs ≡ r → Ensures IsLoaded (r >>= λ u. ok cs)
    settled (unexpected e) v = tt
    settled (ok u) v =
        let (ids, classids, marks, tables) = (validate_classes_iff_IsApart cs).0 v in
        record {
          any_class = h.0;
          well_formed = h.1;
          ids_apart = ids;
          classids_apart = classids;
          marks_apart = marks;
          tables_apart = tables;
        }

module _ (json : Json) (word_bits : ℕ) where
  open json use {Value}

  load_root-IsLoaded : (root : Value) → Ensures IsLoaded (load_root json word_bits root)
  unfolding load_root
  load_root-IsLoaded root =
      elim (Bool-cases (
        not (json.contains root (codes "path_classes"))
        || not (json.is_array (json.at root (codes "path_classes"))))) [
          | inl missing ↦ rw (missing, if◌then◌else◌) tt
          | inr there ↦
              elim (Bool-cases (is_empty (json.elements (json.at root (codes "path_classes"))))) [
                | inl none_there ↦ rw (there, none_there, if◌then◌else◌) tt
                | inr some_there ↦
                    rw (there, some_there, if◌then◌else◌)
                      (Ensures->>= _ _
                        (parse_classes json word_bits
                          (json.elements (json.at root (codes "path_classes"))))
                        (λ cs. validate_classes cs >>= λ u. ok cs)
                        (parse_classes-All json word_bits _)
                        λ cs h. validated-IsLoaded cs (same_emptiness cs _ h.0 some_there, h.1))
              ]
        ]

  -- Whatever JSON library and file: the classes that loading returns are at least one, each with a
  -- name, a path and named interfaces, a classid and a mark that fit 32 bits and are not 0, a
  -- routing table in 1..65534 and warn above drop; and no two share an id, a classid, a mark or a
  -- routing table.
  pub load_from_file-IsLoaded :
      (file : Option Text) (cs : List PathClassConfig)
      → load_from_file json word_bits file ≡ ok cs
      → IsLoaded cs
  unfolding load_from_file
  load_from_file-IsLoaded none cs h = cc
  load_from_file-IsLoaded (some text) cs h = elim (Option-cases (json.parse text)) [
    | inl bad ↦ cc bad
    | inr (root, e) ↦
        Ensures-ok IsLoaded (load_root json word_bits root) (load_root-IsLoaded root)
          (rw (e, load_from_file) at h)
  ]
