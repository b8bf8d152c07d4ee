-- ===== src/Api/Wire/Frame.antt =====
-- api/consumer_api_server.hpp, struct ApiMsg as the 96 bytes that sendMsg and recvMsg move. The
-- byte order is little-endian, as on the daemon's targets; both ends are on one machine.
use wifi_offload_rpi.Prelude.{
  List, Text, [], ap, arith, drop, if◌then◌else◌, length, length-append, ltb, negsuc, pos, refl,
  suc, take, zero, ℕ, ℤ, ◌%◌, ◌*◌, ◌++◌, ◌+◌, ◌-◌, ◌/◌, ◌<◌, ◌^◌, ◌∙◌, ◌∷◌, ◌≡◌,
}
use wifi_offload_rpi.Api.Wire.{ApiMsg, array_size}

-- The bytes of an unsigned field, the lowest first.
unfoldable pub le_bytes : ℕ → ℕ → Text
le_bytes zero n = []
le_bytes (suc k) n = (n % 256) ∷ le_bytes k (n / 256)

unfoldable pub le_value : Text → ℕ
le_value [] = 0
le_value (b ∷ bs) = b + 256 * le_value bs

-- The bit pattern of an int32_t.
unfoldable pub to_word : ℤ → ℕ
to_word (pos n) = n
to_word (negsuc n) = 2 ^ 32 - suc n

unfoldable pub of_word : ℕ → ℤ
of_word n = if ltb n (2 ^ 31) then pos n else negsuc (2 ^ 32 - n - 1)

abbrev pub msg_size : ℕ
msg_size = 96

unfoldable pub encode : ApiMsg → Text
unfolding le_bytes to_word
encode msg =
    le_bytes 4 msg.type
    ++ (le_bytes 4 msg.error
        ++ (le_bytes 8 msg.handle
            ++ (le_bytes 4 (to_word msg.pid)
                ++ (le_bytes 4 (to_word msg.rssi)
                    ++ (le_bytes 4 msg.state
                        ++ (le_bytes 4 msg.pad ++ (msg.class_id ++ msg.iface)))))))

unfoldable pub field_at : ℕ → ℕ → Text → Text
field_at offset size bytes = take size (drop offset bytes)

unfoldable pub decode : Text → ApiMsg
unfolding le_value of_word field_at
decode bytes = record {
  type = le_value (field_at 0 4 bytes);
  error = le_value (field_at 4 4 bytes);
  handle = le_value (field_at 8 8 bytes);
  pid = of_word (le_value (field_at 16 4 bytes));
  rssi = of_word (le_value (field_at 20 4 bytes));
  state = le_value (field_at 24 4 bytes);
  pad = le_value (field_at 28 4 bytes);
  class_id = field_at 32 32 bytes;
  iface = field_at 64 32 bytes;
}

abbrev pub IsInt32 : ℤ → Type 0
IsInt32 (pos n) = n < 2 ^ 31
IsInt32 (negsuc n) = n < 2 ^ 31

-- Each field has its width.
pub record IsWire (msg : ApiMsg) : Type 0 where
  pub type_fits : msg.type < 2 ^ 32
  pub error_fits : msg.error < 2 ^ 32
  pub handle_fits : msg.handle < 2 ^ 64
  pub pid_fits : IsInt32 msg.pid
  pub rssi_fits : IsInt32 msg.rssi
  pub state_fits : msg.state < 2 ^ 32
  pub pad_fits : msg.pad < 2 ^ 32
  pub class_id_fits : length msg.class_id ≡ array_size
  pub iface_fits : length msg.iface ≡ array_size

le_value-le_bytes : (n : ℕ) → n < 2 ^ 32 → le_value (le_bytes 4 n) ≡ n
unfolding le_value le_bytes
le_value-le_bytes n h = omega arith

le_value-le_bytes_long : (n : ℕ) → n < 2 ^ 64 → le_value (le_bytes 8 n) ≡ n
unfolding le_value le_bytes
le_value-le_bytes_long n h = omega arith

to_word-lt : (z : ℤ) → IsInt32 z → to_word z < 2 ^ 32
unfolding to_word
to_word-lt (pos n) h = omega arith
to_word-lt (negsuc n) h = omega arith

of_word-to_word : (z : ℤ) → IsInt32 z → of_word (to_word z) ≡ z
unfolding of_word to_word
of_word-to_word (pos n) h = ground arith
of_word-to_word (negsuc n) h = ground arith

pub take-append : {A : Type 0} (k : ℕ) (xs ys : List A) → length xs ≡ k → take k (xs ++ ys) ≡ xs
take-append zero [] ys h = refl
take-append zero (x ∷ xs) ys h = absurd (omega arith)
take-append (suc k) [] ys h = absurd (omega arith)
take-append (suc k) (x ∷ xs) ys h = ap (λ zs. x ∷ zs) (take-append k xs ys (omega arith))

pub drop-append : {A : Type 0} (k : ℕ) (xs ys : List A) → length xs ≡ k → drop k (xs ++ ys) ≡ ys
drop-append zero [] ys h = refl
drop-append zero (x ∷ xs) ys h = absurd (omega arith)
drop-append (suc k) [] ys h = absurd (omega arith)
drop-append (suc k) (x ∷ xs) ys h = drop-append k xs ys (omega arith)

pub take_all : {A : Type 0} (k : ℕ) (xs : List A) → length xs ≡ k → take k xs ≡ xs
take_all zero [] h = refl
take_all zero (x ∷ xs) h = absurd (omega arith)
take_all (suc k) [] h = absurd (omega arith)
take_all (suc k) (x ∷ xs) h = ap (λ zs. x ∷ zs) (take_all k xs (omega arith))

pub length-encode : (msg : ApiMsg) → IsWire msg → length (encode msg) ≡ msg_size
unfolding encode le_bytes
length-encode msg v =
    omega (arith, length-append msg.class_id msg.iface, v.class_id_fits, v.iface_fits)

word_field : (z : ℤ) → IsInt32 z → of_word (le_value (le_bytes 4 (to_word z))) ≡ z
word_field z h = ap of_word (le_value-le_bytes (to_word z) (to_word-lt z h)) ∙ of_word-to_word z h

-- A message whose fields have their widths is read back from its 96 bytes as it was.
pub decode-encode : (msg : ApiMsg) → IsWire msg → decode (encode msg) ≡ msg
unfolding decode encode
decode-encode msg v = λ i. record {
  type = le_value-le_bytes msg.type v.type_fits i;
  error = le_value-le_bytes msg.error v.error_fits i;
  handle = le_value-le_bytes_long msg.handle v.handle_fits i;
  pid = word_field msg.pid v.pid_fits i;
  rssi = word_field msg.rssi v.rssi_fits i;
  state = le_value-le_bytes msg.state v.state_fits i;
  pad = le_value-le_bytes msg.pad v.pad_fits i;
  class_id = take-append array_size msg.class_id msg.iface v.class_id_fits i;
  iface = iface_field i;
}
  where
    iface_field : take array_size (drop array_size (msg.class_id ++ msg.iface)) ≡ msg.iface
    iface_field =
        ap (take array_size) (drop-append array_size msg.class_id msg.iface v.class_id_fits)
        ∙ take_all array_size msg.iface v.iface_fits
