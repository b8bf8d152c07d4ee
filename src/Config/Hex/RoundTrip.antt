-- ===== src/Config/Hex/RoundTrip.antt =====
-- What std::format writes with "0x{:08x}", std::stoul reads back.
use wifi_offload_rpi.Prelude.{
  All, Bool, List, Text, [], ap, arith, false, is_empty, map, refl, some, suc, true, zero, ℕ, ◌%◌,
  ◌*◌, ◌++◌, ◌+◌, ◌/◌, ◌<◌, ◌^◌, ◌∙◌, ◌∷◌, ◌≡◌, ◌≤◌,
}
use wifi_offload_rpi.Config.Hex.{
  digit_in, finish, format_hex, hex_digit, hex_digits, is_hex_start, read_digits, stoul, value,
}
use mathlib.Core.List.{foldl, map-append}
use native.Mathlib.Nat.{pow-suc, pow-le-pow_right}

-- The last `k` digits as numbers.
unfoldable pub nibbles : ℕ → ℕ → List ℕ
nibbles zero n = []
nibbles (suc k) n = nibbles k (n / 16) ++ (n % 16) ∷ []

abbrev pub IsNibble : ℕ → Type 0
IsNibble d = d < 16

abbrev pub push_digit : ℕ → ℕ → ℕ
push_digit acc d = acc * 16 + d

pub nibbles-All : (k n : ℕ) → All IsNibble (nibbles k n)
unfolding nibbles
nibbles-All zero n = tt
nibbles-All (suc k) n =
    All-snoc (nibbles k (n / 16)) (n % 16) (nibbles-All k (n / 16)) (omega arith)
  where
    All-snoc : (ds : List ℕ) (d : ℕ) → All IsNibble ds → d < 16 → All IsNibble (ds ++ d ∷ [])
    All-snoc [] d h l = (l, tt)
    All-snoc (x ∷ ds) d h l = (h.0, All-snoc ds d h.1 l)

hex_digits-nibbles : (k n : ℕ) → hex_digits k n ≡ map hex_digit (nibbles k n)
unfolding hex_digits nibbles
hex_digits-nibbles zero n = refl
hex_digits-nibbles (suc k) n =
    rw (map-append hex_digit (nibbles k (n / 16)) ((n % 16) ∷ []), hex_digits-nibbles k (n / 16))

foldl-snoc :
    (acc d : ℕ) (ds : List ℕ)
    → foldl push_digit acc (ds ++ d ∷ []) ≡ foldl push_digit acc ds * 16 + d
foldl-snoc acc d [] = refl
foldl-snoc acc d (x ∷ ds) = foldl-snoc (push_digit acc x) d ds

pub nibbles-value : (k n : ℕ) → n < 16 ^ k → foldl push_digit 0 (nibbles k n) ≡ n
unfolding nibbles
nibbles-value zero n h = omega (arith, h)
nibbles-value (suc k) n h = omega (
  arith,
  foldl-snoc 0 (n % 16) (nibbles k (n / 16)),
  nibbles-value k (n / 16) (omega (arith, pow-suc 16 k)),
)

digit_in-hex_digit : (d : ℕ) → d < 16 → digit_in 16 (hex_digit d) ≡ some d
unfolding hex_digit digit_in
digit_in-hex_digit d h = ground arith

-- One digit read, with the digits shut.
pub read_digits-cons :
    (acc d c : ℕ) (any_digit : Bool) (cs : Text)
    → digit_in 16 c ≡ some d
    → read_digits 16 acc any_digit (c ∷ cs) ≡ read_digits 16 (acc * 16 + d) true cs
unfolding read_digits
read_digits-cons acc d c any_digit cs h = rw (h, read_digits)

-- Any digits that stand for the numbers below 16.
module _ (digit : ℕ → ℕ) (reads : (d : ℕ) → d < 16 → digit_in 16 (digit d) ≡ some d) where
  pub read_digits-nibbles :
      (acc : ℕ) (ds : List ℕ)
      → All IsNibble ds
      → read_digits 16 acc true (map digit ds) ≡ some (foldl push_digit acc ds)
  read_digits-nibbles acc [] h = unfold read_digits in refl
  read_digits-nibbles acc (d ∷ ds) h =
      read_digits-cons acc d (digit d) true (map digit ds) (reads d h.0)
      ∙ read_digits-nibbles (push_digit acc d) ds h.1

is_hex_start_lem : (d c : ℕ) (cs : Text) → digit_in 16 c ≡ some d → is_hex_start (c ∷ cs) ≡ true
unfolding is_hex_start
is_hex_start_lem d c cs h = rw (h, is_hex_start)

-- The digits after the prefix.
stoul-prefix :
    (bits d c : ℕ) (cs : Text)
    → digit_in 16 c ≡ some d
    → stoul bits (b'0' ∷ b'x' ∷ c ∷ cs) ≡ finish bits false (read_digits 16 0 false (c ∷ cs))
unfolding stoul
stoul-prefix bits d c cs h = rw (is_hex_start_lem d c cs h)

stoul-nibbles :
    (bits : ℕ) (ds : List ℕ)
    → is_empty ds ≡ false
    → All IsNibble ds
    → stoul bits (b'0' ∷ b'x' ∷ map hex_digit ds) ≡ finish bits false (some (foldl push_digit 0 ds))
stoul-nibbles bits [] e h = cc
stoul-nibbles bits (d ∷ ds) e h =
    stoul-prefix bits d (hex_digit d) (map hex_digit ds) (digit_in-hex_digit d h.0)
    ∙ ap (finish bits false) (
        read_digits-cons 0 d (hex_digit d) false (map hex_digit ds) (digit_in-hex_digit d h.0)
        ∙ read_digits-nibbles hex_digit digit_in-hex_digit (push_digit 0 d) ds h.1)

pub finish-small : (bits n : ℕ) → 32 ≤ bits → n < 2 ^ 32 → finish bits false (some n) ≡ value n
unfolding finish
finish-small bits n w h =
    let wide : 2 ^ 32 ≤ 2 ^ bits = pow-le-pow_right (omega arith) w in ground (arith, wide)

-- A uint32_t written by std::format("0x{:08x}") is the number that std::stoul with base 0 reads,
-- whether unsigned long has 32 bits or more.
pub stoul-format_hex : (bits n : ℕ) → 32 ≤ bits → n < 2 ^ 32 → stoul bits (format_hex n) ≡ value n
unfolding format_hex nibbles
stoul-format_hex bits n w h = rw (hex_digits-nibbles 8 n) (
    stoul-nibbles bits (nibbles 8 n) refl (nibbles-All 8 n)
    ∙ ap (λ v. finish bits false (some v)) (nibbles-value 8 n h)
    ∙ finish-small bits n w h)
