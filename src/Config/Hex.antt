-- ===== src/Config/Hex.antt =====
-- std::stoul with base 0, as config/config_loader.cpp calls it, and the format "0x{:08x}" of
-- routing/routing_policy_manager.cpp.
pub mod RoundTrip
pub mod Upper
use wifi_offload_rpi.Prelude.{
  Bool, Option, Text, [], false, if◌then◌else◌, leb, ltb, none, some, suc, true, zero, ℕ, ◌%◌, ◌&&◌,
  ◌*◌, ◌++◌, ◌+◌, ◌-◌, ◌/◌, ◌==◌, ◌^◌, ◌||◌, ◌∷◌,
}

pub data Parsed : Type 0 where
  value : ℕ → Parsed
  invalid_argument out_of_range : Parsed

abbrev pub is_space : ℕ → Bool
is_space c = c == 32 || (leb 9 c && leb c 13)

abbrev pub skip_spaces : Text → Text
skip_spaces [] = []
skip_spaces (c ∷ cs) = if is_space c then skip_spaces cs else c ∷ cs

-- The value of a digit in bases up to 16.
abbrev pub digit_value : ℕ → Option ℕ
digit_value c =
    if leb b'0' c && leb c b'9'
    then some (c - b'0')
    else if leb b'a' c && leb c b'f'
    then some (c - b'a' + 10)
    else if leb b'A' c && leb c b'F'
    then some (c - b'A' + 10)
    else none

unfoldable pub digit_in : ℕ → ℕ → Option ℕ
digit_in base c = elim (digit_value c) [
  | none ↦ none
  | some d ↦ if ltb d base then some d else none
]

-- The digits of a base, up to the first byte that is none: the value, and whether there was one.
unfoldable pub read_digits : ℕ → ℕ → Bool → Text → Option ℕ
read_digits base acc any_digit [] = if any_digit then some acc else none
read_digits base acc any_digit (c ∷ cs) = elim (digit_in base c) [
  | none ↦ if any_digit then some acc else none
  | some d ↦ read_digits base (acc * base + d) true cs
]

abbrev is_x : ℕ → Bool
is_x c = c == b'x' || c == b'X'

unfoldable pub is_hex_start : Text → Bool
is_hex_start [] = false
is_hex_start (c ∷ cs) = elim (digit_in 16 c) [ none ↦ false | some d ↦ true ]

-- Base 0: "0x" before a hexadecimal digit, a leading "0" for octal, else decimal.
read_prefixed : Text → Option ℕ
read_prefixed [] = none
read_prefixed (c ∷ []) = read_digits 10 0 false (c ∷ [])
read_prefixed (c ∷ x ∷ cs) =
    if c == b'0'
    then (if is_x x && is_hex_start cs
        then read_digits 16 0 false cs
        else read_digits 8 0 false (c ∷ x ∷ cs))
    else read_digits 10 0 false (c ∷ x ∷ cs)

-- A minus sign negates in unsigned long; the range is checked before that.
pub finish : ℕ → Bool → Option ℕ → Parsed
finish bits negative none = invalid_argument
finish bits negative (some n) =
    if leb (2 ^ bits) n
    then out_of_range
    else if negative
    then value ((2 ^ bits - n) % 2 ^ bits)
    else value n

read_signed : ℕ → Text → Parsed
unfolding read_prefixed finish
read_signed bits [] = invalid_argument
read_signed bits (c ∷ cs) =
    if c == b'-'
    then finish bits true (read_prefixed cs)
    else if c == b'+'
    then finish bits false (read_prefixed cs)
    else finish bits false (read_prefixed (c ∷ cs))

unfoldable pub stoul : ℕ → Text → Parsed
unfolding read_signed
stoul bits s = read_signed bits (skip_spaces s)

-- Base 16: "0x" is skipped before a digit.
read_hex : Text → Option ℕ
read_hex [] = none
read_hex (c ∷ []) = read_digits 16 0 false (c ∷ [])
read_hex (c ∷ x ∷ cs) =
    if c == b'0' && (is_x x && is_hex_start cs)
    then read_digits 16 0 false cs
    else read_digits 16 0 false (c ∷ x ∷ cs)

read_signed_hex : ℕ → Text → Parsed
unfolding read_hex finish
read_signed_hex bits [] = invalid_argument
read_signed_hex bits (c ∷ cs) =
    if c == b'-'
    then finish bits true (read_hex cs)
    else if c == b'+'
    then finish bits false (read_hex cs)
    else finish bits false (read_hex (c ∷ cs))

-- std::stoul with base 16.
unfoldable pub stoul_hex : ℕ → Text → Parsed
unfolding read_signed_hex
stoul_hex bits s = read_signed_hex bits (skip_spaces s)

hex_digit : ℕ → ℕ
hex_digit d = if ltb d 10 then b'0' + d else b'a' + (d - 10)

-- The last `k` hexadecimal digits.
unfoldable pub hex_digits : ℕ → ℕ → Text
unfolding hex_digit
hex_digits zero n = []
hex_digits (suc k) n = hex_digits k (n / 16) ++ hex_digit (n % 16) ∷ []

-- std::format("0x{:08x}", n) for a uint32_t.
unfoldable pub format_hex : ℕ → Text
format_hex n = b'0' ∷ b'x' ∷ hex_digits 8 n
