-- ===== src/Routing/DropRules.antt =====
-- routing/routing_policy_manager.cpp, addDropRules: which DROP rules it appends, as pairs of an
-- output interface and a mark.
pub mod Marks
pub mod Isolation
use wifi_offload_rpi.Prelude.{
  Bool, List, Text, [], any, if◌then◌else◌, keep, map, not, text_eq, ℕ, ◌++◌, ◌∷◌,
}
use wifi_offload_rpi.Types.{PathClassConfig}

-- std::ranges::find on the names.
abbrev pub has_name : Text → List Text → Bool
has_name name = any (λ x. text_eq x name)

-- The interfaces of all classes, each once, in the order of their first mention.
add_ifaces : List Text → List Text → List Text
add_ifaces acc [] = acc
add_ifaces acc (iface ∷ rest) =
    add_ifaces (if has_name iface acc then acc else acc ++ iface ∷ []) rest

collect_ifaces : List Text → List PathClassConfig → List Text
unfolding add_ifaces
collect_ifaces acc [] = acc
collect_ifaces acc (cls ∷ rest) = collect_ifaces (add_ifaces acc cls.interfaces) rest

unfoldable pub all_ifaces : List PathClassConfig → List Text
unfolding collect_ifaces
all_ifaces classes = collect_ifaces [] classes

-- (a) the interfaces that are not the class's own.
foreign_rules : List Text → PathClassConfig → List (Text × ℕ)
foreign_rules all cls =
    map (λ iface. (iface, cls.mark)) (keep (λ iface. not (has_name iface cls.interfaces)) all)

-- (b) every other class, on the class's own interfaces.
intruder_rules : List PathClassConfig → PathClassConfig → List (Text × ℕ)
intruder_rules [] cls = []
intruder_rules (peer ∷ rest) cls =
    (if text_eq peer.id cls.id then [] else map (λ iface. (iface, peer.mark)) cls.interfaces)
    ++ intruder_rules rest cls

-- The loop over the classes with strict isolation.
drop_rules_from : List PathClassConfig → List PathClassConfig → List (Text × ℕ)
unfolding foreign_rules intruder_rules
drop_rules_from classes [] = []
drop_rules_from classes (cls ∷ rest) =
    (if cls.strict_isolation
      then foreign_rules (all_ifaces classes) cls ++ intruder_rules classes cls
      else [])
    ++ drop_rules_from classes rest

unfoldable pub drop_rules : List PathClassConfig → List (Text × ℕ)
unfolding drop_rules_from
drop_rules classes = drop_rules_from classes classes
