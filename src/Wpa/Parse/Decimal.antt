-- ===== src/Wpa/Parse/Decimal.antt =====
-- Decimal numerals, as a sender writes them, and std::from_chars on them.
use wifi_offload_rpi.Prelude.{
  ℕ, zero, suc, ◌+◌, ◌-◌, ◌*◌, ◌/◌, ◌%◌, ◌≤◌, ◌<◌, ◌≡◌, refl, true, false, [], ◌∷◌, ◌++◌, ℤ, pos,
  negsuc, Text, All, length, arith, ltb, if◌then◌else◌, ◌==◌, negated, is_digit, digits_of,
  value_from, is_empty,
}
use wifi_offload_rpi.Wpa.Parse.{from_chars}

-- With fuel above `n`; `decimal` gives enough.
decimal_fuel : ℕ → ℕ → Text
decimal_fuel zero n = []
decimal_fuel (suc fuel) n =
    let rest = decimal_fuel fuel (n / 10) in
    if ltb n 10 then (b'0' + n) ∷ [] else rest ++ (b'0' + n % 10) ∷ []

unfoldable pub decimal : ℕ → Text
unfolding decimal_fuel
decimal n = decimal_fuel (suc n) n

unfoldable pub print_int : ℤ → Text
print_int (pos n) = decimal n
print_int (negsuc n) = b'-' ∷ decimal (suc n)

abbrev pub IsDigit : ℕ → Type 0
IsDigit c = is_digit c ≡ true

value_from-append :
    (acc c : ℕ) (ds : Text) → value_from acc (ds ++ c ∷ []) ≡ value_from acc ds * 10 + (c - b'0')
value_from-append acc c [] = refl
value_from-append acc c (d ∷ ds) = value_from-append (acc * 10 + (d - b'0')) c ds

decimal_fuel-value : (fuel n : ℕ) → n < fuel → value_from 0 (decimal_fuel fuel n) ≡ n
unfolding decimal_fuel
decimal_fuel-value zero n h = elim h [ ]
decimal_fuel-value (suc fuel) n h = ground (
  arith,
  value_from-append 0 (b'0' + n % 10) (decimal_fuel fuel (n / 10)),
  decimal_fuel-value fuel (n / 10),
)

All-snoc : (c : ℕ) (ds : Text) → All IsDigit ds → IsDigit c → All IsDigit (ds ++ c ∷ [])
All-snoc c [] h k = (k, tt)
All-snoc c (d ∷ ds) h k = (h.0, All-snoc c ds h.1 k)

plus_zero-IsDigit : (n : ℕ) → n < 10 → IsDigit (b'0' + n)
plus_zero-IsDigit n h = ground arith

decimal_fuel-digits : (fuel n : ℕ) → All IsDigit (decimal_fuel fuel n)
unfolding decimal_fuel
decimal_fuel-digits zero n = tt
decimal_fuel-digits (suc fuel) n = ground (
  arith,
  decimal_fuel-digits fuel (n / 10),
  All-snoc (b'0' + n % 10) (decimal_fuel fuel (n / 10)),
  plus_zero-IsDigit n,
  plus_zero-IsDigit (n % 10),
)

is_empty-snoc : (xs : Text) (c : ℕ) → is_empty (xs ++ c ∷ []) ≡ false
is_empty-snoc [] c = refl
is_empty-snoc (x ∷ xs) c = refl

nonempty-length : (xs : Text) → is_empty xs ≡ false → 0 < length xs
nonempty-length [] h = cc
nonempty-length (x ∷ xs) h = omega arith

decimal_fuel-nonempty : (fuel n : ℕ) → is_empty (decimal_fuel (suc fuel) n) ≡ false
unfolding decimal_fuel
decimal_fuel-nonempty fuel n =
    ground (arith, is_empty-snoc (decimal_fuel fuel (n / 10)) (b'0' + n % 10))

pub decimal-value : (n : ℕ) → value_from 0 (decimal n) ≡ n
unfolding decimal
decimal-value n = decimal_fuel-value (suc n) n (omega arith)

pub decimal-digits : (n : ℕ) → All IsDigit (decimal n)
unfolding decimal
decimal-digits n = decimal_fuel-digits (suc n) n

decimal-nonempty : (n : ℕ) → is_empty (decimal n) ≡ false
unfolding decimal
decimal-nonempty n = decimal_fuel-nonempty n n

digits_of-digits : (ds : Text) → All IsDigit ds → digits_of ds ≡ ds
digits_of-digits [] h = refl
digits_of-digits (d ∷ ds) h = ground (arith, digits_of-digits ds h.1)

-- The values of an `int` of 32 bits.
abbrev pub IsInt32 : ℤ → Type 0
IsInt32 (pos n) = n < 2147483648
IsInt32 (negsuc n) = n < 2147483648

from_chars-digits :
    (ds : Text) (held : ℤ)
    → All IsDigit ds
    → is_empty ds ≡ false
    → value_from 0 ds < 2147483648
    → from_chars ds held ≡ pos (value_from 0 ds)
unfolding from_chars
from_chars-digits [] held h e v = cc
from_chars-digits (d ∷ ds) held h e v = ground (arith, digits_of-digits ds h.1)

from_chars-minus :
    (ds : Text) (held : ℤ)
    → All IsDigit ds
    → is_empty ds ≡ false
    → value_from 0 ds ≤ 2147483648
    → from_chars (b'-' ∷ ds) held ≡ negated (value_from 0 ds)
unfolding from_chars
from_chars-minus ds held h e v = ground (arith, digits_of-digits ds h)

-- What is printed is read back, over the whole range of an `int`.
pub from_chars-print_int : (r held : ℤ) → IsInt32 r → from_chars (print_int r) held ≡ r
unfolding print_int
from_chars-print_int (pos n) held h = ground (
  arith,
  from_chars-digits (decimal n) held (decimal-digits n) (decimal-nonempty n),
  decimal-value n,
)
from_chars-print_int (negsuc n) held h = ground (
  arith,
  from_chars-minus (decimal (suc n)) held (decimal-digits (suc n)) (decimal-nonempty (suc n)),
  decimal-value (suc n),
)

-- A printed integer has no space, no letter, and at least one byte.
abbrev pub IsFree : ℕ → ℕ → Type 0
IsFree k c = (c == k) ≡ false

Free-digits : (k : ℕ) (ds : Text) → is_digit k ≡ false → All IsDigit ds → All (IsFree k) ds
Free-digits k [] h d = tt
Free-digits k (c ∷ ds) h d = (ground arith, Free-digits k ds h d.1)

pub print_int-Free :
    (k : ℕ) (r : ℤ) → is_digit k ≡ false → (k == b'-') ≡ false → All (IsFree k) (print_int r)
unfolding print_int
print_int-Free k (pos n) h m = Free-digits k (decimal n) h (decimal-digits n)
print_int-Free k (negsuc n) h m =
    (ground arith, Free-digits k (decimal (suc n)) h (decimal-digits (suc n)))

pub print_int-nonempty : (r : ℤ) → 0 < length (print_int r)
unfolding print_int
print_int-nonempty (pos n) = nonempty-length (decimal n) (decimal-nonempty n)
print_int-nonempty (negsuc n) = omega arith
