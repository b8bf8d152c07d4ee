-- ===== src/Config/Examples.antt =====
-- A JSON value type, a file with one class, and the checks on it.
use wifi_offload_rpi.Prelude.{
  Bool, List, Option, Text, [], arith, codes, false, if◌then◌else◌, map, none, ok, pos, refl, some,
  text_eq, true, ℤ, ◌↔◌, ◌∷◌, ◌≡◌,
}
use wifi_offload_rpi.Types.{PathClassConfig, default_rssi}
use wifi_offload_rpi.Config.{
  Json, bool_field, interfaces_field, load_from_file, nonzero, parse_classes, parse_hex_field,
  parse_interfaces, parse_path_class, parse_rssi_thresholds, routing_table_field, rssi_field,
  strict_isolation_field, string_field, validate_classes,
}
use wifi_offload_rpi.Config.Hex.{digit_in, format_hex, is_hex_start, read_digits, stoul}
use wifi_offload_rpi.Config.Field.{parse_hex_field-format_hex}
use wifi_offload_rpi.Config.Unique.{IsApart, validate_classes_iff_IsApart}
use wifi_offload_rpi.Config.Schema.{IsLoaded, load_from_file-IsLoaded}

mutual
  pub data Node : Type 0 where
    string : Text → Node
    boolean : Bool → Node
    integer : ℤ → Node
    array : Nodes → Node
    object : Members → Node

  pub data Nodes : Type 0 where
    empty : Nodes
    more : Node → Nodes → Nodes

  pub data Members : Type 0 where
    end : Members
    member : Text → Node → Members → Members

abbrev lookup : Members → Text → Option Node
lookup end key = none
lookup (member k v rest) key = if text_eq k key then some v else lookup rest key

abbrev or_default : Option Node → Node
or_default none = object end
or_default (some v) = v

abbrev has_value : Option Node → Bool
has_value none = false
has_value (some v) = true

abbrev member_of : Node → Text → Option Node
member_of (object ms) key = lookup ms key
member_of v key = none

abbrev listed : Nodes → List Node
listed empty = []
listed (more v vs) = v ∷ listed vs

abbrev as_list : Node → List Node
as_list (array vs) = listed vs
as_list v = []

abbrev as_text : Node → Text
as_text (string s) = s
as_text v = []

abbrev as_bool : Node → Bool
as_bool (boolean b) = b
as_bool v = false

abbrev as_int : Node → ℤ
as_int (integer n) = n
as_int v = pos 0

abbrev lte_node : Node
lte_node = object (
    member (codes "id") (string (codes "lte_b2c")) (
      member (codes "classid") (string (codes "0x00100002")) (
        member (codes "cgroup_path") (string (codes "/sys/fs/cgroup/net_cls/lte_b2c")) (
          member (codes "interfaces") (array (more (string (codes "wwan0")) empty)) (
            member (codes "mptcp_enabled") (boolean false) (
              member (codes "routing_table") (integer (pos 200))
                (member (codes "mark") (string (codes "0x20")) end)))))))

-- One document is known: the text "lte".
abbrev pub json : Json
json = record {
  Value = Node;
  parse = λ t.
      if text_eq t (codes "lte")
      then some (object (member (codes "path_classes") (array (more lte_node empty)) end))
      else none;
  contains = λ v key. has_value (member_of v key);
  at = λ v key. or_default (member_of v key);
  is_array = λ v. elim v [ array vs ↦ true | _ ↦ false ];
  is_string = λ v. elim v [ string s ↦ true | _ ↦ false ];
  is_boolean = λ v. elim v [ boolean b ↦ true | _ ↦ false ];
  is_number_integer = λ v. elim v [ integer n ↦ true | _ ↦ false ];
  is_object = λ v. elim v [ object ms ↦ true | _ ↦ false ];
  elements = as_list;
  get_string = as_text;
  get_bool = as_bool;
  get_int = as_int;
}

abbrev pub lte : PathClassConfig
lte = record {
  id = codes "lte_b2c";
  classid = 0x00100002;
  cgroup_path = codes "/sys/fs/cgroup/net_cls/lte_b2c";
  interfaces = codes "wwan0" ∷ [];
  mptcp_enabled = false;
  routing_table = 200;
  mark = 0x20;
  strict_isolation = false;
  rssi = default_rssi;
}

pub lte_loaded : load_from_file json 64 (some (codes "lte")) ≡ ok (lte ∷ [])
unfolding string_field nonzero interfaces_field parse_interfaces bool_field routing_table_field
    strict_isolation_field rssi_field load_from_file text_eq parse_hex_field parse_path_class
    parse_classes stoul read_digits digit_in is_hex_start parse_rssi_thresholds validate_classes
lte_loaded = refl

load_from_file-IsLoaded_example : IsLoaded (lte ∷ [])
load_from_file-IsLoaded_example =
    load_from_file-IsLoaded json 64 (some (codes "lte")) (lte ∷ []) lte_loaded

abbrev classid_only : Node
classid_only = object (member (codes "classid") (string (format_hex 0x00100002)) end)

parse_hex_field-format_hex_example :
    parse_hex_field json 64 classid_only (codes "classid") ≡ ok 0x00100002
unfolding text_eq
parse_hex_field-format_hex_example =
    parse_hex_field-format_hex json 64 classid_only (codes "classid") 0x00100002 (omega arith)
      (omega arith) refl refl refl

abbrev twice : List PathClassConfig
twice = lte ∷ lte ∷ []

validate_classes_iff_IsApart_example : (validate_classes twice ≡ ok tt) ↔ (
    IsApart (map (λ c. c.id) twice)
    × IsApart (map (λ c. c.classid) twice)
    × IsApart (map (λ c. c.mark) twice)
    × IsApart (map (λ c. c.routing_table) twice))
validate_classes_iff_IsApart_example = validate_classes_iff_IsApart twice
