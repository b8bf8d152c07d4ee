-- ===== src/Api/Wire.antt =====
-- api/consumer_api_server.hpp, the wire protocol: message types, the 96-byte message and its two
-- fixed character arrays.
pub mod Frame
pub mod Casts
pub mod Equal
use wifi_offload_rpi.Prelude.{
  All, Text, [], ap, arith, false, if◌then◌else◌, length, length-append, pos, refl, suc, take, zero,
  ℕ, ℤ, ◌++◌, ◌-◌, ◌==◌, ◌∷◌, ◌≡◌, ◌≤◌,
}

pub data MsgType : Type 0 where
  register register_ack unregister unregister_ack query_current query_ack path_event : MsgType

abbrev pub msg_code : MsgType → ℕ
msg_code register = 1
msg_code register_ack = 2
msg_code unregister = 3
msg_code unregister_ack = 4
msg_code query_current = 5
msg_code query_ack = 6
msg_code path_event = 7

-- `class_id` and `iface` are the 32 bytes of the arrays.
pub record ApiMsg : Type 0 where
  pub type : ℕ
  pub error : ℕ
  pub handle : ℕ
  pub pid : ℤ
  pub rssi : ℤ
  pub state : ℕ
  pub pad : ℕ
  pub class_id : Text
  pub iface : Text

abbrev pub array_size : ℕ
array_size = 32

unfoldable pub zeros : ℕ → Text
zeros zero = []
zeros (suc n) = 0 ∷ zeros n

-- A value-initialised message.
abbrev pub empty_msg : ApiMsg
empty_msg = record {
  type = 0;
  error = 0;
  handle = 0;
  pid = pos 0;
  rssi = pos 0;
  state = 0;
  pad = 0;
  class_id = zeros array_size;
  iface = zeros array_size;
}

abbrev pub ack_of : MsgType → ApiMsg
ack_of type = record empty_msg { type = msg_code type }

-- The bytes before the first NUL, and at most `n`: what strnlen counts.
unfoldable pub c_string : ℕ → Text → Text
c_string zero s = []
c_string (suc n) [] = []
c_string (suc n) (c ∷ cs) = if c == 0 then [] else c ∷ c_string n cs

-- std::string{array, strnlen(array, sizeof(array))}
unfoldable pub array_string : Text → Text
unfolding c_string
array_string bytes = c_string array_size bytes

-- strncpy into a zeroed array, of at most sizeof - 1 bytes.
unfoldable pub to_array : Text → Text
unfolding c_string zeros
to_array s =
    let copied = c_string (array_size - 1) s in copied ++ zeros (array_size - length copied)

abbrev pub IsText : Text → Type 0
IsText = All (λ c. (c == 0) ≡ false)

length-c_string : (n : ℕ) (s : Text) → length (c_string n s) ≤ n
unfolding c_string
length-c_string zero s = omega arith
length-c_string (suc n) [] = omega arith
length-c_string (suc n) (c ∷ cs) = ground (arith, length-c_string n cs)

length-zeros : (n : ℕ) → length (zeros n) ≡ n
unfolding zeros
length-zeros zero = refl
length-zeros (suc n) = omega (arith, length-zeros n)

c_string-text : (n : ℕ) (s : Text) → IsText s → c_string n s ≡ take n s
unfolding c_string
c_string-text zero s h = refl
c_string-text (suc n) [] h = refl
c_string-text (suc n) (c ∷ cs) h = rw (h.0, if◌then◌else◌) (ap (◌∷◌ c) (c_string-text n cs h.1))

c_string-zeros : (k m : ℕ) → c_string k (zeros m) ≡ []
unfolding c_string zeros
c_string-zeros zero m = refl
c_string-zeros (suc k) zero = refl
c_string-zeros (suc k) (suc m) = refl

-- Reading stops at the padding.
c_string-take-zeros :
    (k n m : ℕ) (s : Text) → IsText s → n ≤ k → c_string k (take n s ++ zeros m) ≡ take n s
unfolding c_string
c_string-take-zeros k zero m s h l = c_string-zeros k m
c_string-take-zeros zero (suc n) m s h l = absurd (omega arith)
c_string-take-zeros (suc k) (suc n) m [] h l = c_string-zeros (suc k) m
c_string-take-zeros (suc k) (suc n) m (c ∷ cs) h l =
    rw (h.0, if◌then◌else◌) (ap (◌∷◌ c) (c_string-take-zeros k n m cs h.1 (omega arith)))

-- A text written to an array of a message fills exactly its 32 bytes.
pub length-to_array : (s : Text) → length (to_array s) ≡ array_size
unfolding to_array
length-to_array s =
    let copied = c_string (array_size - 1) s in
    omega (
      arith,
      length-append copied (zeros (array_size - length copied)),
      length-zeros (array_size - length copied),
      length-c_string (array_size - 1) s,
    )

-- The wire round trip: what is read from an array is the text that was written, cut to 31 bytes.
pub array_string-to_array : (s : Text) → IsText s → array_string (to_array s) ≡ take 31 s
unfolding array_string to_array
array_string-to_array s h =
    rw (c_string-text 31 s h)
      (c_string-take-zeros array_size 31 (array_size - length (take 31 s)) s h (omega arith))
