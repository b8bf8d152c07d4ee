-- ===== src/Routing/Cgroups/Examples.antt =====
-- Two classes on a file system whose directories all exist.
use wifi_offload_rpi.Prelude.{
  All, Bool, Bool-cases, List, Option, Text, [], ap, arith, codes, false, if◌then◌else◌, inl, inr,
  none, ok, refl, some, sym, take, text_eq, text_eq_self, text_eq_sound, true, ℕ, ◌++◌, ◌<◌, ◌^◌,
  ◌∙◌, ◌∷◌, ◌≡◌, ◌≢◌,
}
use wifi_offload_rpi.Types.{PathClassConfig, default_rssi}
use wifi_offload_rpi.Routing.Cgroups.Unseen.{closing}
use wifi_offload_rpi.Routing.Cgroups.NetCls.{ClassidLaws}
use wifi_offload_rpi.Routing.Cgroups.{
  Files, cgroup_dir, classid_file, classid_text, create_cgroup_hierarchy, existing, file_name, join,
  parent_path, setup_one_class,
}
use wifi_offload_rpi.Routing.Cgroups.SetUp.{HasClassid, IsAway, IsOnNetCls}
use wifi_offload_rpi.Config.Hex.{
  Parsed, digit_in, format_hex, hex_digits, invalid_argument, is_hex_start, out_of_range,
  read_digits, stoul, stoul_hex, value,
}
use wifi_offload_rpi.Wpa.Parse.Decimal.{decimal}
use wifi_offload_rpi.Config.Hex.RoundTrip.{stoul-format_hex}
use wifi_offload_rpi.Routing.Cgroups.Classids.{create_cgroup_hierarchy-All}

abbrev Numbers : Type 0
Numbers = List (Text × ℕ)

abbrev number_of : Text → Numbers → Option ℕ
number_of p [] = none
number_of p ((q, n) ∷ rest) = if text_eq p q then some n else number_of p rest

abbrev parsed_or_zero : Parsed → ℕ
parsed_or_zero (value n) = n
parsed_or_zero invalid_argument = 0
parsed_or_zero out_of_range = 0

-- The kernel takes "0x" and eight digits; the second part of the state is the stream's buffer.
abbrev number_in : Text → ℕ
number_in t = parsed_or_zero (stoul 32 (take 10 t))

abbrev shown_number : Option ℕ → Option Text
shown_number none = none
shown_number (some n) = some (decimal n ++ 10 ∷ [])

abbrev pub toy_files : Files
toy_files = record {
  Disk = Numbers × Text;
  canonical = λ p d. some p;
  create_directories = λ p d. (true, d);
  read_file = λ p d. shown_number (number_of p d.0);
  open_file = λ p d. some (d.0, []);
  insert_text = λ p t d. (true, (d.0, d.1 ++ t));
  close_file = λ p d. (true, ((p, number_in d.1) ∷ d.0, []));
  exists = λ p d. some true;
  remove = λ p d. (true, d);
}

take-classid_text : (n : ℕ) → take 10 (classid_text n) ≡ format_hex n
unfolding format_hex hex_digits
take-classid_text n = refl

pub number_in-classid_text : (n : ℕ) → n < 2 ^ 32 → number_in (classid_text n) ≡ n
number_in-classid_text n h =
    ap (λ t. parsed_or_zero (stoul 32 t)) (take-classid_text n)
    ∙ ap parsed_or_zero (stoul-format_hex 32 n (omega arith) h)

pub text_eq-apart : (p q : Text) → q ≢ p → text_eq q p ≡ false
text_eq-apart p q n = elim (Bool-cases (text_eq q p)) [
  | inl same ↦ elim (n (text_eq_sound q p same)) [ ]
  | inr differs ↦ differs
]

pub some_inj : {A : Type 0} {a b : A} → some a ≡ some b → a ≡ b
some_inj e = cc

pub shown_number-some :
    (k : Option ℕ) (t : Text)
    → shown_number k ≡ some t
    → (n : ℕ) × (k ≡ some n) × (t ≡ decimal n ++ 10 ∷ [])
shown_number-some none t e = cc
shown_number-some (some n) t e = (n, refl, sym (some_inj e))

unfoldable pub files_laws : ClassidLaws toy_files
files_laws = record {
  on_net_cls = λ p. Unit;
  same_file = λ p q. p ≡ q;
  classid_of = λ p d. number_of p d.0;
  shown = λ p t d at e. shown_number-some (number_of p d.0) t e;
  made = λ dir q n d at h. h;
  opened_kept = λ p q n d d' at e h. ap (λ x. number_of q x.0) (sym (some_inj e)) ∙ h;
  inserted_kept = λ p q m n d at h. h;
  written = λ p n d d₁ d₂ at h o i. refl;
  taken = λ p n d d₁ d₂ d' at h o i c.
      let buffer : d₂.1 ≡ classid_text n =
        ap (λ y. y.1.1) (sym i) ∙ ap (λ x. x.1 ++ classid_text n) (sym (some_inj o)) in
      ap (λ y. number_of p y.1.0) (sym c)
      ∙ rw (text_eq_self p, buffer) (ap some (number_in-classid_text n h));
  elsewhere = λ p q k d at n h. rw (text_eq-apart p q n) h;
  made_resolves = λ dir q r d e. e;
  opened_resolves = λ p q r d d' o e. e;
  inserted_resolves = λ p t q r d e. e;
  closed_resolves = λ p q r d e. e;
}

abbrev multipath : PathClassConfig
multipath = record {
  id = codes "multipath";
  classid = 0x00100001;
  cgroup_path = codes "/sys/fs/cgroup/net_cls/multipath";
  interfaces = codes "wlan0" ∷ [];
  mptcp_enabled = true;
  routing_table = 100;
  mark = 0x10;
  strict_isolation = false;
  rssi = default_rssi;
}

abbrev lte : PathClassConfig
lte = record multipath {
  id = codes "lte";
  classid = 0x10;
  cgroup_path = codes "/sys/fs/cgroup/net_cls/lte";
}

abbrev file_of_multipath : Text
file_of_multipath = codes "/sys/fs/cgroup/net_cls/multipath/net_cls.classid"

abbrev file_of_lte : Text
file_of_lte = codes "/sys/fs/cgroup/net_cls/lte/net_cls.classid"

abbrev created : Numbers × Text
created = ((file_of_lte, 0x10) ∷ (file_of_multipath, 0x00100001) ∷ [], [])

created_lem : create_cgroup_hierarchy toy_files (multipath ∷ lte ∷ []) ([], []) ≡ (ok tt, created)
unfolding create_cgroup_hierarchy setup_one_class cgroup_dir join parent_path file_name existing
    text_eq decimal stoul stoul_hex read_digits digit_in format_hex is_hex_start hex_digits
created_lem = refl

different : (p q : Text) → text_eq p q ≡ false → p ≢ q
different p q e same = ground (arith, e, text_eq_self p, same)

files_apart : IsAway toy_files files_laws created multipath lte
unfolding files_laws cgroup_dir join parent_path file_name text_eq
files_apart dir dir' r r' same = different file_of_multipath file_of_lte refl (
    ap (classid_file toy_files) (some_inj r)
    ∙ same
    ∙ sym (ap (classid_file toy_files) (some_inj r')))

on_net_cls : (cls : PathClassConfig) → IsOnNetCls toy_files files_laws created cls
unfolding files_laws
on_net_cls cls dir r = tt

create_cgroup_hierarchy-All_example :
    All (HasClassid toy_files files_laws created) (multipath ∷ lte ∷ [])
create_cgroup_hierarchy-All_example =
    create_cgroup_hierarchy-All toy_files files_laws (multipath ∷ lte ∷ []) ([], []) created
      created_lem ((omega arith, omega arith), ((omega arith, omega arith), tt))
      (on_net_cls multipath, (files_apart, tt), (on_net_cls lte, tt, tt))

-- The kernel shows 16 as 16, and 10 as 10, which the daemon takes for 0x10.
stale_lem :
    setup_one_class toy_files lte ((file_of_lte, 10) ∷ [], [])
    ≡ (ok tt, ((file_of_lte, 10) ∷ [], []))
unfolding setup_one_class cgroup_dir join parent_path file_name existing text_eq decimal stoul
    stoul_hex read_digits digit_in format_hex is_hex_start hex_digits
stale_lem = refl

-- Every write fails when the stream is destroyed, and the number is lost.
abbrev lost : Text → Numbers × Text → Bool × (Numbers × Text)
lost p d = (false, (d.0, []))

lost_lem : setup_one_class (closing toy_files lost) lte ([], []) ≡ (ok tt, ([], []))
unfolding setup_one_class cgroup_dir join parent_path file_name existing text_eq decimal stoul
    stoul_hex read_digits digit_in format_hex is_hex_start hex_digits
lost_lem = refl
