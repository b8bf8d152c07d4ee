-- ===== src/Config.antt =====
-- config/config_loader.cpp: the JSON configuration. `Json` stands for nlohmann::json, which is not
-- part of the repository; `word_bits` is the width of the target's unsigned long.
pub mod Hex
pub mod Ensures
pub mod Schema
pub mod Unique
pub mod Field
pub mod Examples
use wifi_offload_rpi.Prelude.{
  Bool, Expected, List, Option, Text, [], any, codes, drop, false, if◌then◌else◌, is_empty, leb_ℤ,
  ltb, negsuc, none, not, ok, pos, some, text_eq, unexpected, ℕ, ℤ, ◌&&◌, ◌==◌, ◌>>=◌, ◌>>◌, ◌||◌,
  ◌∷◌,
}
use wifi_offload_rpi.Types.{
  ConfigError, PathClassConfig, RssiThresholds, default_rssi, file_not_found, invalid_schema,
  invalid_value, missing_field, parse_error,
}
use Hex.{Parsed, value, invalid_argument, out_of_range, stoul}

pub record Json : Type 1 where
  pub Value : Type 0
  pub parse : Text → Option Value
  pub contains : Value → Text → Bool
  pub at : Value → Text → Value
  pub is_array : Value → Bool
  pub is_string : Value → Bool
  pub is_boolean : Value → Bool
  pub is_number_integer : Value → Bool
  pub is_object : Value → Bool
  pub elements : Value → List Value
  pub get_string : Value → Text
  pub get_bool : Value → Bool
  pub get_int : Value → ℤ

abbrev pub Result {ℓ} : Type ℓ → Type ℓ
Result A = Expected ConfigError A

module _ (json : Json) (word_bits : ℕ) where
  open json use {
    Value, contains, at, is_array, is_string, is_boolean, is_number_integer, is_object, elements,
    get_string, get_bool, get_int,
  }

  -- A required string that is not empty: "id" and "cgroup_path".
  string_field : Value → Text → Result Text
  string_field j key =
      if not (contains j key) || not (is_string (at j key))
      then unexpected missing_field
      else if is_empty (get_string (at j key))
      then unexpected invalid_value
      else ok (get_string (at j key))

  -- What the try block makes of std::stoul's result or exception.
  narrow : Parsed → Result ℕ
  narrow (value parsed) = if ltb 4294967295 parsed then unexpected invalid_value else ok parsed
  narrow invalid_argument = unexpected invalid_value
  narrow out_of_range = unexpected invalid_value

  pub parse_hex_field : Value → Text → Result ℕ
  unfolding narrow
  parse_hex_field j key =
      if not (contains j key)
      then unexpected missing_field
      else if not (is_string (at j key))
      then unexpected invalid_value
      else narrow (stoul word_bits (get_string (at j key)))

  -- "classid" and "mark" must not be zero.
  nonzero : ℕ → Result ℕ
  nonzero n = if n == 0 then unexpected invalid_value else ok n

  parse_interfaces : List Value → Result (List Text)
  parse_interfaces [] = ok []
  parse_interfaces (v ∷ vs) =
      let rest = parse_interfaces vs in
      if not (is_string v) || is_empty (get_string v)
      then unexpected invalid_value
      else (rest >>= λ names. ok (get_string v ∷ names))

  interfaces_field : Value → Result (List Text)
  interfaces_field j =
      if not (contains j (codes "interfaces")) || not (is_array (at j (codes "interfaces")))
      then unexpected missing_field
      else if is_empty (elements (at j (codes "interfaces")))
      then unexpected invalid_value
      else parse_interfaces (elements (at j (codes "interfaces")))

  bool_field : Value → Text → Result Bool
  bool_field j key =
      if not (contains j key) || not (is_boolean (at j key))
      then unexpected missing_field
      else ok (get_bool (at j key))

  -- static_cast<uint32_t> of a value in [1, 65534].
  table_of : ℤ → Result ℕ
  table_of (pos n) = if ltb n 1 || ltb 65534 n then unexpected invalid_value else ok n
  table_of (negsuc n) = unexpected invalid_value

  routing_table_field : Value → Result ℕ
  unfolding table_of
  routing_table_field j =
      if not (contains j (codes "routing_table"))
        || not (is_number_integer (at j (codes "routing_table")))
      then unexpected missing_field
      else table_of (get_int (at j (codes "routing_table")))

  strict_isolation_field : Value → Result Bool
  strict_isolation_field j =
      if contains j (codes "strict_isolation")
      then (if not (is_boolean (at j (codes "strict_isolation")))
          then unexpected invalid_value
          else ok (get_bool (at j (codes "strict_isolation"))))
      else ok false

  -- An integer member, or the default.
  int_or : Value → Text → ℤ → ℤ
  int_or j key default =
      if contains j key && is_number_integer (at j key) then get_int (at j key) else default

  unfoldable pub parse_rssi_thresholds : Value → RssiThresholds
  unfolding int_or
  parse_rssi_thresholds j = record {
    connect_min = int_or j (codes "connect_min") default_rssi.connect_min;
    warn = int_or j (codes "warn") default_rssi.warn;
    drop = int_or j (codes "drop") default_rssi.drop;
  }

  checked_rssi : RssiThresholds → Result RssiThresholds
  checked_rssi rssi = if leb_ℤ rssi.warn rssi.drop then unexpected invalid_value else ok rssi

  rssi_field : Value → Result RssiThresholds
  unfolding checked_rssi
  rssi_field j =
      if contains j (codes "rssi")
      then (if not (is_object (at j (codes "rssi")))
          then unexpected invalid_value
          else checked_rssi (parse_rssi_thresholds (at j (codes "rssi"))))
      else ok default_rssi

  pub parse_path_class : Value → Result PathClassConfig
  parse_path_class j = do
    id ← string_field j (codes "id")
    parsed_classid ← parse_hex_field j (codes "classid")
    classid ← nonzero parsed_classid
    cgroup_path ← string_field j (codes "cgroup_path")
    interfaces ← interfaces_field j
    mptcp_enabled ← bool_field j (codes "mptcp_enabled")
    routing_table ← routing_table_field j
    parsed_mark ← parse_hex_field j (codes "mark")
    mark ← nonzero parsed_mark
    strict_isolation ← strict_isolation_field j
    rssi ← rssi_field j
    ok (record {
      id = id;
      classid = classid;
      cgroup_path = cgroup_path;
      interfaces = interfaces;
      mptcp_enabled = mptcp_enabled;
      routing_table = routing_table;
      mark = mark;
      strict_isolation = strict_isolation;
      rssi = rssi;
    })

  -- The loop over the entries; the first error ends it.
  pub parse_classes : List Value → Result (List PathClassConfig)
  parse_classes [] = ok []
  parse_classes (entry ∷ entries) =
      let rest = parse_classes entries in
      do cfg ← parse_path_class entry; cfgs ← rest; ok (cfg ∷ cfgs)

-- Whether a set has a key already.
abbrev pub seen_text : Text → List Text → Bool
seen_text k = any (λ x. text_eq k x)

abbrev pub seen_number : ℕ → List ℕ → Bool
seen_number k = any (λ x. k == x)

validate_from : List Text → List ℕ → List ℕ → List ℕ → List PathClassConfig → Result (Unit {0})
validate_from ids classids marks tables [] = ok tt
validate_from ids classids marks tables (cls ∷ rest) =
    let later =
      validate_from (cls.id ∷ ids) (cls.classid ∷ classids) (cls.mark ∷ marks)
        (cls.routing_table ∷ tables) rest in
    if seen_text cls.id ids
    then unexpected invalid_value
    else if seen_number cls.classid classids
    then unexpected invalid_value
    else if seen_number cls.mark marks
    then unexpected invalid_value
    else if seen_number cls.routing_table tables
    then unexpected invalid_value
    else later

unfoldable pub validate_classes : List PathClassConfig → Result (Unit {0})
unfolding validate_from
validate_classes classes = validate_from [] [] [] [] classes

module _ (json : Json) (word_bits : ℕ) where
  open json use {Value, parse, contains, at, is_array, elements}

  load_root : Value → Result (List PathClassConfig)
  load_root root =
      if not (contains root (codes "path_classes"))
        || not (is_array (at root (codes "path_classes")))
      then unexpected invalid_schema
      else if is_empty (elements (at root (codes "path_classes")))
      then unexpected invalid_schema
      else (do
        classes ← parse_classes json word_bits (elements (at root (codes "path_classes")))
        validate_classes classes
        ok classes)

  -- `none`: the file cannot be opened.
  pub load_from_file : Option Text → Result (List PathClassConfig)
  unfolding load_root
  load_from_file none = unexpected file_not_found
  load_from_file (some text) = elim (parse text) [
    | none ↦ unexpected parse_error
    | some root ↦ load_root root
  ]
