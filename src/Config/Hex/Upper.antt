-- ===== src/Config/Hex/Upper.antt =====
-- What the kernel prints with "%08X", std::stoul with base 16 reads (routing/routing_policy_manager.cpp,
-- queryGatewayForIface).
use wifi_offload_rpi.Prelude.{
  All, Bool, List, Text, [], ap, arith, false, if◌then◌else◌, length, ltb, map, refl, some, true, ℕ,
  ◌&&◌, ◌+◌, ◌-◌, ◌<◌, ◌==◌, ◌^◌, ◌∙◌, ◌∷◌, ◌≡◌, ◌≤◌,
}
use wifi_offload_rpi.Config.Hex.RoundTrip.{
  IsNibble, finish-small, nibbles, nibbles-All, nibbles-value, push_digit, read_digits-cons,
  read_digits-nibbles,
}
use wifi_offload_rpi.Config.Hex.{digit_in, finish, is_space, is_x, stoul_hex, value}
use mathlib.Core.List.{foldl}

unfoldable pub upper_digit : ℕ → ℕ
upper_digit d = if ltb d 10 then b'0' + d else b'A' + (d - 10)

-- The eight digits of a 32-bit number.
unfoldable pub upper_hex : ℕ → Text
upper_hex n = map upper_digit (nibbles 8 n)

digit_in-upper_digit : (d : ℕ) → d < 16 → digit_in 16 (upper_digit d) ≡ some d
unfolding upper_digit digit_in
digit_in-upper_digit d h = ground arith

-- A digit is no prefix letter, no sign and no space.
upper_digit_plain :
    (d : ℕ)
    → d < 16
    → (is_x (upper_digit d) ≡ false)
      × ((upper_digit d == b'-') ≡ false)
      × ((upper_digit d == b'+') ≡ false)
      × (is_space (upper_digit d) ≡ false)
unfolding upper_digit
upper_digit_plain d h = ground arith

upper_digits-IsWord :
    (ds : List ℕ) → All IsNibble ds → All (λ c. is_space c ≡ false) (map upper_digit ds)
upper_digits-IsWord [] h = tt
upper_digits-IsWord (d ∷ ds) h = ((upper_digit_plain d h.0).3, upper_digits-IsWord ds h.1)

pub upper_hex-IsWord : (n : ℕ) → All (λ c. is_space c ≡ false) (upper_hex n)
unfolding upper_hex
upper_hex-IsWord n = upper_digits-IsWord (nibbles 8 n) (nibbles-All 8 n)

no_prefix : {A : Type 0} (b : Bool) (x y : A) → (if b && false then x else y) ≡ y
no_prefix true x y = refl
no_prefix false x y = refl

-- Two digits or more.
stoul_hex-nibbles :
    (bits : ℕ) (ds : List ℕ)
    → 2 ≤ length ds
    → All IsNibble ds
    → stoul_hex bits (map upper_digit ds) ≡ finish bits false (some (foldl push_digit 0 ds))
unfolding stoul_hex
stoul_hex-nibbles bits [] l h = absurd (omega arith)
stoul_hex-nibbles bits (d ∷ []) l h = absurd (omega arith)
stoul_hex-nibbles bits (d ∷ e ∷ ds) l h =
    let (not_x, minus, plus, space) = upper_digit_plain d h.0 in
    rw (space, minus, plus, (upper_digit_plain e h.1.0).0)
      (ap (finish bits false) (
        no_prefix (upper_digit d == b'0') _ _
        ∙ read_digits-cons 0 d (upper_digit d) false (map upper_digit (e ∷ ds))
            (digit_in-upper_digit d h.0)
        ∙ read_digits-nibbles upper_digit digit_in-upper_digit (push_digit 0 d) (e ∷ ds) h.1))

-- The number is read back, whether unsigned long has 32 bits or more.
pub stoul_hex-upper_hex :
    (bits n : ℕ) → 32 ≤ bits → n < 2 ^ 32 → stoul_hex bits (upper_hex n) ≡ value n
unfolding upper_hex nibbles
stoul_hex-upper_hex bits n w h =
    stoul_hex-nibbles bits (nibbles 8 n) (omega arith) (nibbles-All 8 n)
    ∙ ap (λ v. finish bits false (some v)) (nibbles-value 8 n h)
    ∙ finish-small bits n w h
