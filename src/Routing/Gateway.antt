-- ===== src/Routing/Gateway.antt =====
-- RoutingPolicyManager::queryGatewayForIface (routing/routing_policy_manager.cpp): the default
-- gateway of an interface, from the text of /proc/net/route; `none` if that cannot be opened. The
-- byte order is little-endian, as on the daemon's targets, where htonl swaps the bytes.
pub mod Table
mod Examples
use wifi_offload_rpi.Prelude.{
  List, Option, Text, [], codes, drop, if◌then◌else◌, is_empty, none, not, some, text_eq, ℕ, ◌%◌,
  ◌*◌, ◌+◌, ◌/◌, ◌==◌, ◌^◌, ◌||◌, ◌∷◌,
}
use wifi_offload_rpi.Config.Hex.{is_space, skip_spaces, stoul_hex, value}

add_front : ℕ → List Text → List Text
add_front c [] = (c ∷ []) ∷ []
add_front c (l ∷ ls) = (c ∷ l) ∷ ls

-- std::getline, to the end of the file.
unfoldable pub lines : Text → List Text
unfolding add_front
lines [] = []
lines (c ∷ cs) = let rest = lines cs in if c == 10 then [] ∷ rest else add_front c rest

-- A word, and what follows it.
split_word : Text → Text × Text
split_word [] = ([], [])
split_word (c ∷ cs) =
    let (word, rest) = split_word cs in if is_space c then ([], c ∷ cs) else (c ∷ word, rest)

-- The operator >> on a string.
next_word : Text → Option (Text × Text)
unfolding split_word
next_word s = if is_empty (skip_spaces s) then none else some (split_word (skip_spaces s))

abbrev then_word : Option (Text × Text) → Option (Text × Text)
then_word none = none
then_word (some (word, rest)) = next_word rest

pub record Row : Type 0 where
  pub dev : Text
  pub dst : Text
  pub gw : Text

-- The first three columns.
unfoldable pub row_of : Text → Option Row
unfolding next_word
row_of line =
    let dev = next_word line in
    let dst = then_word dev in let gw = then_word dst in columns dev dst gw
  where
    columns : Option (Text × Text) → Option (Text × Text) → Option (Text × Text) → Option Row
    columns (some (dev, _)) (some (dst, _)) (some (gw, _)) =
        some (record { dev = dev; dst = dst; gw = gw })
    columns a b c = none

unfoldable pub htonl : ℕ → ℕ
htonl n = n % 256 * 2 ^ 24 + n / 2 ^ 8 % 256 * 2 ^ 16 + n / 2 ^ 16 % 256 * 2 ^ 8 + n / 2 ^ 24 % 256

-- The gateway that a line gives for an interface; lines that do not fit are skipped.
gateway_in : ℕ → Text → Row → Option ℕ
gateway_in bits iface row =
    if not (text_eq row.dev iface) || not (text_eq row.dst (codes "00000000"))
    then none
    else elim (stoul_hex bits row.gw) [ value n ↦ some (n % 2 ^ 32) | _ ↦ none ]

unfoldable pub gateway_of : ℕ → Text → Text → Option ℕ
unfolding row_of gateway_in
gateway_of bits iface line = elim (row_of line) [
  | none ↦ none
  | some row ↦ gateway_in bits iface row
]

unfoldable pub query_lines : ℕ → Text → List Text → ℕ
query_lines bits iface [] = 0
query_lines bits iface (line ∷ rest) =
    let later = query_lines bits iface rest in
    elim (gateway_of bits iface line) [ none ↦ later | some gw ↦ htonl gw ]

unfoldable pub query_gateway_for_iface : ℕ → Text → Option Text → ℕ
query_gateway_for_iface bits iface none = 0
query_gateway_for_iface bits iface (some text) = query_lines bits iface (drop 1 (lines text))
