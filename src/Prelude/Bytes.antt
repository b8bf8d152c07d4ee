-- ===== src/Prelude/Bytes.antt =====
-- Texts: std::string and std::string_view as lists of bytes.
use Prim.Native.Nat.{ℕ, zero, suc, ◌+◌, ◌-◌, ◌*◌}
use Prim.Native.Char.{code}
use Prim.Native.String.{String}
use mathlib.Core.Path.{◌≡◌, refl}
use mathlib.Core.Logic.{◌↔◌}
use mathlib.Core.Bool.{Bool, true, false, ◌&&◌}
use mathlib.Core.List.{List, [], ◌∷◌}
use native.Mathlib.Omega.{arith}
use mathlib.Core.Option
use mathlib.Core.Option.{Option, none, some}
use wifi_offload_rpi.Prelude.Tests.{◌==◌, ==_self, leb, if◌then◌else◌}
use wifi_offload_rpi.Prelude.Lists.{is_empty, drop}
use wifi_offload_rpi.Prelude.Int.{ℤ, pos, negsuc}

abbrev pub Text : Type 0
Text = List ℕ

-- The bytes of an ASCII literal.
abbrev pub codes : String → Text
codes String.[] = []
codes (String.◌∷◌ c s) = code c ∷ codes s

unfoldable pub text_eq : Text → Text → Bool
text_eq [] [] = true
text_eq [] (y ∷ ys) = false
text_eq (x ∷ xs) [] = false
text_eq (x ∷ xs) (y ∷ ys) = (x == y) && text_eq xs ys

pub text_eq_sound : (xs ys : Text) → text_eq xs ys ≡ true → xs ≡ ys
unfolding text_eq
text_eq_sound [] [] h = refl
text_eq_sound [] (y ∷ ys) h = ground arith
text_eq_sound (x ∷ xs) [] h = ground arith
text_eq_sound (x ∷ xs) (y ∷ ys) h = ground (arith, text_eq_sound xs ys)

pub text_eq_self : (xs : Text) → text_eq xs xs ≡ true
unfolding text_eq
text_eq_self [] = refl
text_eq_self (x ∷ xs) = ground (arith, ==_self x, text_eq_self xs)

pub text_eq_iff : (xs ys : Text) → (text_eq xs ys ≡ true) ↔ (xs ≡ ys)
text_eq_iff xs ys = (text_eq_sound xs ys, λ e. ground (arith, text_eq_self xs))

-- std::string_view::starts_with.
abbrev pub starts_with : Text → Text → Bool
starts_with [] msg = true
starts_with (k ∷ ks) [] = false
starts_with (k ∷ ks) (c ∷ cs) = (c == k) && starts_with ks cs

-- std::string_view::find: the position of the first occurrence; `none` is npos.
abbrev pub find : Text → Text → Option ℕ
find key [] = if is_empty key then some 0 else none
find key (c ∷ cs) = if starts_with key (c ∷ cs) then some 0 else Option.map suc (find key cs)

-- find with a start position.
abbrev pub find_from : Text → Text → ℕ → Option ℕ
find_from key msg start = Option.map (λ p. p + start) (find key (drop start msg))

abbrev pub is_digit : ℕ → Bool
is_digit c = leb b'0' c && leb c b'9'

-- The longest prefix of digits.
abbrev pub digits_of : Text → Text
digits_of [] = []
digits_of (c ∷ cs) = if is_digit c then c ∷ digits_of cs else []

-- The number that the digits of a text stand for, after those read already.
abbrev pub value_from : ℕ → Text → ℕ
value_from acc [] = acc
value_from acc (c ∷ cs) = value_from (acc * 10 + (c - b'0')) cs

-- -n, where 0 has one sign.
abbrev pub negated : ℕ → ℤ
negated zero = pos 0
negated (suc n) = negsuc n
